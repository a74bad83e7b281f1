-- ===== src/GeeCache/HttpPool/Paths.antt =====
-- How the paths of the client are read by the server.
use go_little_project.Base.{
  ℕ, ◌≡◌, refl, true, [], ◌∷◌, ◌++◌, some, GoString, GoMap, lookup, insert, str_eq, arith,
  nat_beq_iff, has_prefix, drop, length, IsFree, ok, ◌>>=◌, nat_eq,
}
use go_little_project.GeeCache.Group.{Group, Fetched, get}
use go_little_project.GeeCache.HttpPool.{
  HttpPool, cut_first, answer, serve_http, serve_parts, url_of,
}

cut_first-append :
    (sep : ℕ) (a b : GoString) → IsFree sep a → cut_first sep (a ++ sep ∷ b) ≡ (a, some b)
unfolding cut_first
cut_first-append sep [] b h = ground (arith, nat_beq_iff sep sep)
cut_first-append sep (c ∷ a) b (ne, h) =
    ground (arith, nat_beq_iff c sep, cut_first-append sep a b h)

has_prefix-append : (p s : GoString) → has_prefix (p ++ s) p ≡ true
has_prefix-append [] s = ground arith
has_prefix-append (c ∷ p) s = ground (arith, nat_beq_iff c c, has_prefix-append p s)

drop-append : (p s : GoString) → drop (length p) (p ++ s) ≡ s
drop-append [] s = refl
drop-append (c ∷ p) s = drop-append p s

-- The server reads the group and the key that the client has put into the URL, where the group's
-- name has no slash and neither is changed by the escaping: the answer is the one of that group's
-- `Get`, and the group that `Get` leaves is put back.
pub serve_http-url :
    (marshal : GoString → Fetched) (escape : GoString → GoString) (h : HttpPool)
    (groups : GoMap GoString Group) (name key : GoString) (group : Group)
    → escape name ≡ name
    → escape key ≡ key
    → IsFree b'/' name
    → lookup name groups ≡ some group
    → serve_http marshal h groups (url_of escape h.base_path name key)
      ≡ (get group key >>= λ r. ok (insert name r.0 groups, answer marshal r.1))
unfolding serve_http serve_parts url_of
serve_http-url marshal escape h groups name key group en ek free there =
    let path = name ++ b'/' ∷ key in
    rw
      (
        en,
        ek,
        has_prefix-append h.base_path path,
        drop-append h.base_path path,
        cut_first-append b'/' name key free,
      )
      (rw (serve_parts, there) refl)
