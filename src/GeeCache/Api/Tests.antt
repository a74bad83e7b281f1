-- ===== src/GeeCache/Api/Tests.antt =====
-- Runs of the front end.
use go_little_project.Base.{
  ◌≡◌, refl, [], inl, Option, true, ◌∷◌, none, some, str, ok, blocked, lookup, insert,
}
use go_little_project.Gee.Response.Recorder.{recorder, recorder-IsLawful}
use go_little_project.GeeCache.Group.{Loader, new_group, fetched, failed}
use go_little_project.GeeCache.Api.{slow_db, create_group, serve_api}
use go_little_project.GeeCache.Api.Answers.{scores, later, Picker, serve_api-waits}

tom : slow_db (str "Tom") ≡ fetched (str "630")
unfolding slow_db lookup
tom = refl

missing : slow_db (str "Ann") ≡ failed (str "Ann not exist")
unfolding slow_db lookup
missing = refl

made : create_group [] ≡ ok ((str "scores", scores) ∷ [], scores)
unfolding create_group new_group insert
made = refl

-- a request that waits holds the mutex
abbrev held : Loader
held = record { locked = true; m = [] }

-- no key has a peer
abbrev nobody : Option Picker
nobody = some (λ key. none)

serve_api-waits_example :
    (serve_api recorder (later scores nobody held) (str "Tom") (none, []) ≡ blocked)
    × ((s' : recorder.State) × (serve_api recorder (later scores nobody held) [] (none, [])
          ≡ ok (later scores nobody held, s'))
        × (recorder.status s' ≡ some 500)
        × (recorder.body s' ≡ str "key is required"))
serve_api-waits_example =
    serve_api-waits recorder [] ((str "scores", scores) ∷ []) scores nobody held b'T' (str "om")
      (none, []) recorder-IsLawful refl refl made (inl refl)
