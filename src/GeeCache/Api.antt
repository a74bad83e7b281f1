-- ===== src/GeeCache/Api.antt =====
-- geeCache/main.go: the group of the program and the front end that answers from it. The flags, the
-- addresses and the servers that listen are not modelled.
pub mod Answers
mod Tests
use go_little_project.Base.{
  ℕ, List, [], ◌∷◌, ◌++◌, some, none, GoString, GoMap, lookup, str, str_eq, Outcome, ok, ◌>>=◌,
}
use go_little_project.Gee.Response.{ResponseWriter}
use go_little_project.GeeCache.Group.{Group, Fetched, fetched, failed, new_group, get, byte_slice}

abbrev pub db : GoMap GoString GoString
db = (str "Tom", str "630") ∷ (str "Jack", str "589") ∷ (str "Sam", str "567") ∷ []

-- the getter of `createGroup`
unfoldable pub slow_db : GoString → Fetched
slow_db key = elim (lookup key db) [ some v ↦ fetched v | none ↦ failed (key ++ str " not exist") ]

-- `createGroup`; `2<<10` bytes
unfoldable pub create_group : GoMap GoString Group → Outcome (GoMap GoString Group × Group)
create_group groups = new_group groups (str "scores") 2048 (some slow_db)

module _ (w : ResponseWriter) where
  -- what the handler sends for a view or an error: it goes on after the error, with an empty view
  unfoldable pub send_view : Fetched → w.State → w.State
  send_view (fetched v) s =
      w.write (w.set_key s (str "Content-Type") (str "application/octet-stream")) (byte_slice v)
  send_view (failed err) s =
      w.write (w.set_key (w.error s err 500) (str "Content-Type") (str "application/octet-stream"))
        (byte_slice [])

  -- the handler of `startAPIServer`
  unfoldable pub serve_api : Group → GoString → w.State → Outcome (Group × w.State)
  serve_api g key s = do (g', found) ← get g key; ok (g', send_view found s)
