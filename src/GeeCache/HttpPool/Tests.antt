-- ===== src/GeeCache/HttpPool/Tests.antt =====
-- Runs of the pool.
use go_little_project.Base.{
  ℕ, ◌≡◌, refl, ◌⊎◌, false, List, [], ◌∷◌, none, GoString, str, length, lookup, insert, arith, In,
  ok, panic, ◌>>=◌, str_eq,
}
use go_little_project.GeeCache.Group
use go_little_project.GeeCache.Group.{fetched, failed, Fetched}
use go_little_project.GeeCache.HttpPool.{
  HttpPool, new_http_pool, set_peers, pick_peer, url_of, serve_http, answer, getter_get,
  http_failed,
}
use go_little_project.GeeCache.HttpPool.Picks.{getter_unless, pick_peer-agrees}
use go_little_project.GeeCache.HttpPool.Paths.{serve_http-url}

abbrev addresses : List GoString
addresses = str "http://a" ∷ str "http://b" ∷ []

abbrev crc32 : GoString → ℕ
crc32 s = length s

pick_peer-agrees_example :
    ((h : HttpPool) → pick_peer (set_peers crc32 h addresses) (str "Tom") ≡ ok none)
    ⊎ ((peer : GoString) × In peer addresses
        × ((h : HttpPool)
            → pick_peer (set_peers crc32 h addresses) (str "Tom") ≡ ok (getter_unless h.self peer)))
pick_peer-agrees_example =
    pick_peer-agrees crc32 addresses (str "Tom")
      ((λ e. ground (arith, e)), ((λ e. ground (arith, e)), tt))

abbrev scores : Group.Group
scores = record {
  name = str "scores";
  getter = λ k. failed (str "not exist");
  main_cache = record { lru = none; cache_bytes = 6 };
  peers = none;
  loader = record { locked = false; m = [] };
}

abbrev marshal : GoString → Fetched
marshal b = fetched b

serve_http-url_example :
    serve_http marshal
      (new_http_pool (str "http://a"))
      ((str "scores", scores) ∷ [])
      (url_of (λ s. s) (str "/_geeCache/") (str "scores") [])
    ≡ (Group.get scores [] >>= λ r.
        ok (insert (str "scores") r.0 ((str "scores", scores) ∷ []), answer marshal r.1))
unfolding new_http_pool lookup
serve_http-url_example =
    serve_http-url marshal (λ s. s) (new_http_pool (str "http://a")) ((str "scores", scores) ∷ [])
      (str "scores") [] scores refl refl
      (
        (λ e. ground arith),
        (
          (λ e. ground arith),
          (
            (λ e. ground arith),
            ((λ e. ground arith), ((λ e. ground arith), ((λ e. ground arith), tt))),
          ),
        ),
      )
      refl

-- an error of the group is answered with the status 200 and no bytes
error_lost : answer marshal (failed (str "key is required")) ≡ (200, [])
unfolding answer Group.clone_bytes
error_lost = refl

-- without a response the getter panics
no_response :
    getter_get
      (λ url. http_failed (str "refused"))
      fetched
      (λ s. s)
      (str "http://b/_geeCache/")
      (str "g")
      (str "k")
    ≡ panic
unfolding getter_get url_of
no_response = refl
