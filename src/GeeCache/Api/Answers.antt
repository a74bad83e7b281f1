-- ===== src/GeeCache/Api/Answers.antt =====
-- What the front end answers.
use go_little_project.Base.{
  subst, ℕ, ◌≡◌, refl, ap, ◌∙◌, sym, [], ◌∷◌, ◌++◌, some, none, Option, true, ◌⊎◌, GoString, GoMap,
  str, ok, blocked, ◌>>=◌, false, ok_inj, lookup, str_eq,
}
use mathlib.Core.List.{append-nil}
use go_little_project.Gee.Response.{ResponseWriter, IsLawful, TakesBody, sendable, first_status}
use go_little_project.GeeCache.Group.{
  Group, Loader, Fetched, failed, new_group, get, get_main, clone_bytes,
}
use go_little_project.GeeCache.Group.Reads.{load-waits}
use go_little_project.GeeCache.Api.{create_group, slow_db, serve_api, send_view}

-- the group that the program makes
abbrev pub scores : Group
scores = record {
  name = str "scores";
  getter = slow_db;
  main_cache = record { lru = none; cache_bytes = 2048 };
  peers = none;
  loader = record { locked = false; m = [] };
}

-- `PeerPicker`
abbrev pub Picker : Type 0
Picker = GoString → Option (GoString → GoString → Fetched)

-- the group later on, with its peers and the state of its loader
abbrev pub later : Group → Option Picker → Loader → Group
later g peers loader = record g { peers = peers; loader = loader }

scores_waits :
    (peers : Option Picker) (loader : Loader) (b : ℕ) (key : GoString)
    → (loader.locked ≡ true) ⊎ (lookup (b ∷ key) loader.m ≡ none)
    → get (later scores peers loader) (b ∷ key) ≡ blocked
unfolding get get_main
scores_waits peers loader b key h = load-waits (later scores peers loader) (b ∷ key) h

module _ (w : ResponseWriter) where
  refused_lem :
      (s : w.State)
      → IsLawful w
      → w.status s ≡ none
      → w.body s ≡ []
      → (w.status (send_view w (failed (str "key is required")) s) ≡ some 500)
        × (w.body (send_view w (failed (str "key is required")) s)
            ≡ w.error_text (str "key is required"))
  unfolding send_view clone_bytes
  refused_lem s law fresh empty =
      let message = str "key is required" in
      let status : w.status (w.error s message 500) ≡ some 500 =
        law.status-error s message 500 (sendable 500 refl) ∙ ap (λ c. first_status c 500) fresh in
      (
        law.status-write _ _ ∙ ap (λ c. first_status c 200) (law.status-set _ _ _ ∙ status),
        law.body-write _ _
              (subst TakesBody (sym (law.status-set _ _ _ ∙ status)) (sendable 500 refl))
            ∙ append-nil _
            ∙ law.body-set _ _ _
            ∙ law.body-error s message 500 (sendable 500 refl) (subst TakesBody (sym fresh) tt)
            ∙ ap (λ t. t ++ w.error_text message) empty,
      )

  -- On the group that the program makes, with any peers registered on it and any state of its
  -- loader in which the mutex is held, as the first request leaves it, or the key is not in flight:
  -- the front end never answers a request for a key, and a request without one gets the status 500
  -- with the error.
  pub serve_api-waits :
      (groups groups' : GoMap GoString Group) (g : Group) (peers : Option Picker) (loader : Loader)
      (b : ℕ) (key : GoString) (s : w.State)
      → IsLawful w
      → w.status s ≡ none
      → w.body s ≡ []
      → create_group groups ≡ ok (groups', g)
      → (loader.locked ≡ true) ⊎ (lookup (b ∷ key) loader.m ≡ none)
      → (serve_api w (later g peers loader) (b ∷ key) s ≡ blocked)
        × ((s' : w.State) × (serve_api w (later g peers loader) [] s
              ≡ ok (later g peers loader, s'))
            × (w.status s' ≡ some 500)
            × (w.body s' ≡ w.error_text (str "key is required")))
  unfolding serve_api create_group new_group get
  serve_api-waits groups groups' g peers loader b key s law fresh empty e h =
      let same : scores ≡ g = ap (λ (r : GoMap GoString Group × Group). r.1) (ok_inj e) in
      let (status, body) = refused_lem s law fresh empty in
      (
        ap (λ x. serve_api w (later x peers loader) (b ∷ key) s) (sym same)
            ∙ ap (λ m. m >>= λ r. ok (r.0, send_view w r.1 s)) (scores_waits peers loader b key h),
        (send_view w (failed (str "key is required")) s, refl, status, body),
      )
