-- ===== src/Gee/Static/Below.antt =====
-- The paths whose files a group serves.
use go_little_project.Base.{
  ◌≡◌, refl, sym, ap, ◌∙◌, ◌≢◌, false, List, [], ◌∷◌, ◌++◌, some, none, GoString, str, has_prefix,
  Outcome, ok, arith, All, join, Option-cases, inl, inr, lookup, str_eq, ◌>>=◌,
}
use go_little_project.Base.Slices.{nil_slice}
use go_little_project.Gee.Router.{Params, parse_patterns, handle, add_route, new_router}
use go_little_project.Gee.Router.Wildcards.{IsPlain, handle-rest}
use go_little_project.Gee.Response.{
  ResponseWriter, first_status, IsLawful, sendable, Context, status_to, param,
}
use go_little_project.Gee.Engine.{Engine, RouterGroup, new_engine, new_group, get_on, add_route_on}
use go_little_project.Gee.Static.Paths.{parse-first, parse-pattern, outside, parse-join}
use go_little_project.Gee.Static.{
  Files, IsDocumented, HandlerFunc, create_static_handler, static_on,
}

abbrev files_group : GoString → RouterGroup
files_group prefix = record { prefix = prefix; parent = some 0; middlewares = nil_slice }

-- the parameters that the route binds
abbrev pub rest_params : GoString → List GoString → Params
rest_params q qs = (str "filepath", join (q ∷ qs) (str "/")) ∷ []

abbrev root_group : RouterGroup
root_group = record { prefix = []; parent = none; middlewares = nil_slice }

module _ {w : ResponseWriter} where
  -- A group with a prefix below the engine serves files.
  unfoldable pub group_files : Files w → GoString → GoString → Outcome (Engine (HandlerFunc w))
  group_files fs prefix relative = do
    (e, i) ← new_group new_engine 0 prefix
    static_on fs e i relative

  group_files_lem :
      (fs : Files w) (prefix relative : GoString)
      → (e : Engine (HandlerFunc w)) × (group_files fs prefix relative ≡ ok e)
        × (e.router
            ≡ add_route new_router
                (str "GET")
                (fs.path_join relative (str "/*filepath"))
                (create_static_handler fs (files_group prefix) relative))
  unfolding group_files static_on new_group new_engine get_on add_route_on
  group_files_lem fs prefix relative = (_, refl, refl)

  missing_status :
      (fs : Files w) (g : RouterGroup) (relative path : GoString) (c : Context w)
      → IsLawful w
      → IsDocumented fs
      → has_prefix path (g.prefix ++ relative) ≡ false
      → w.status (create_static_handler fs g relative path c).writer
        ≡ first_status (w.status c.writer) 404
  unfolding create_static_handler status_to
  missing_status fs g relative path c law doc out =
      elim (Option-cases (fs.open_file (param c (str "filepath")))) [
        | inl opened ↦
            rw (create_static_handler, opened)
              (doc.strip-missing _ path fs.file_server c.writer out)
        | inr (err, failed) ↦
            rw (create_static_handler, failed)
              (law.status-write_header c.writer 404 (sendable 404 refl))
      ]

  group_route :
      (fs : Files w) (prefix p : GoString)
      → IsDocumented fs
      → IsPlain p
      → p ≢ str "."
      → p ≢ str ".."
      → (e : Engine (HandlerFunc w)) × (group_files fs prefix (b'/' ∷ p) ≡ ok e)
        × (e.router
            ≡ add_route new_router
                (str "GET")
                (b'/' ∷ p ++ str "/*filepath")
                (create_static_handler fs (files_group prefix) (b'/' ∷ p)))
  group_route fs prefix p doc plain dot dots =
      let (e, made, route) = group_files_lem fs prefix (b'/' ∷ p) in
      (
        e,
        made,
        route
            ∙ ap
                (λ pattern.
                  add_route new_router (str "GET") pattern
                    (create_static_handler fs (files_group prefix) (b'/' ∷ p)))
                (doc.join-plain p plain dot dots),
      )

  -- A group of a new engine with the prefix `/v` is to serve files at `/p`, where v and p are different
  -- plain parts. Each path below `/p`, without the prefix, reaches its handler, which answers with
  -- the status 404, whether the file can be opened or not. path.Join, StripPrefix and the writer are
  -- taken as documented.
  pub group_files-lost :
      (fs : Files w) (v p q path : GoString) (qs : List GoString) (c : Context w)
      → IsLawful w
      → IsDocumented fs
      → IsPlain v
      → IsPlain p
      → p ≢ str "."
      → p ≢ str ".."
      → v ≢ p
      → parse_patterns path ≡ p ∷ q ∷ qs
      → (e : Engine (HandlerFunc w)) × (h : HandlerFunc w) × (group_files fs (b'/' ∷ v) (b'/' ∷ p)
          ≡ ok e)
        × (handle e.router (str "GET") path ≡ ok (some (rest_params q qs, some h)))
        × (w.status (h path c).writer ≡ first_status (w.status c.writer) 404)
  group_files-lost fs v p q path qs c law doc first plain dot dots ne parts =
      let (e, made, route) = group_route fs (b'/' ∷ v) p doc plain dot dots in
      let h = create_static_handler fs (files_group (b'/' ∷ v)) (b'/' ∷ p) in
      (
        e,
        h,
        made,
        ap (λ r. handle r (str "GET") path) route
            ∙ handle-rest (str "GET") _ path p (str "filepath") q qs h plain (λ empty. ground arith)
                (parse-pattern p plain) parts,
        missing_status fs (files_group (b'/' ∷ v)) (b'/' ∷ p) path c law doc
            (outside v p q path qs first ne parts),
      )

  -- The engine itself serves files.
  unfoldable pub root_files : Files w → GoString → Outcome (Engine (HandlerFunc w))
  root_files fs relative = static_on fs new_engine 0 relative

  root_files_lem :
      (fs : Files w) (relative : GoString)
      → (e : Engine (HandlerFunc w)) × (root_files fs relative ≡ ok e)
        × (e.router
            ≡ add_route new_router
                (str "GET")
                (fs.path_join relative (str "/*filepath"))
                (create_static_handler fs root_group relative))
  unfolding root_files static_on new_engine get_on add_route_on
  root_files_lem fs relative = (_, refl, refl)

  served_file :
      (fs : Files w) (p rest : GoString) (c : Context w)
      → IsDocumented fs
      → fs.open_file (param c (str "filepath")) ≡ none
      → (create_static_handler fs root_group (b'/' ∷ p) ((b'/' ∷ p) ++ rest) c).writer
        ≡ fs.file_server rest c.writer
  unfolding create_static_handler
  served_file fs p rest c doc opened =
      rw (create_static_handler, opened)
        (ap (λ f. f c.writer) (doc.strip-found (b'/' ∷ p) rest fs.file_server))

  -- When a new engine itself serves files at `/p`, a request for a path of plain parts below `/p`,
  -- whose file can be opened, reaches the handler, which answers what the file server answers for that
  -- path without `/p`. path.Join and StripPrefix are taken as documented, and p is plain.
  pub root_files-serves :
      (fs : Files w) (p q : GoString) (qs : List GoString) (c : Context w)
      → IsDocumented fs
      → IsPlain p
      → p ≢ str "."
      → p ≢ str ".."
      → All IsPlain (q ∷ qs)
      → c.params ≡ rest_params q qs
      → fs.open_file (join (q ∷ qs) (str "/")) ≡ none
      → (e : Engine (HandlerFunc w)) × (h : HandlerFunc w) × (root_files fs (b'/' ∷ p) ≡ ok e)
        × (handle e.router (str "GET") (b'/' ∷ p ++ (b'/' ∷ join (q ∷ qs) (str "/")))
            ≡ ok (some (c.params, some h)))
        × ((h (b'/' ∷ p ++ (b'/' ∷ join (q ∷ qs) (str "/"))) c).writer
            ≡ fs.file_server (b'/' ∷ join (q ∷ qs) (str "/")) c.writer)
  unfolding param lookup
  root_files-serves fs p q qs c doc plain dot dots parts bound opened =
      let (e, made, route) = root_files_lem fs (b'/' ∷ p) in
      let h = create_static_handler fs root_group (b'/' ∷ p) in
      let rest = join (q ∷ qs) (str "/") in
      let path = b'/' ∷ p ++ (b'/' ∷ rest) in
      let split_path : parse_patterns path ≡ p ∷ q ∷ qs =
        parse-first p rest plain ∙ ap (λ l. p ∷ l) (parse-join q qs parts) in
      (
        e,
        h,
        made,
        ap (λ r. handle r (str "GET") path)
              (route
                ∙ ap (λ pattern. add_route new_router (str "GET") pattern h)
                    (doc.join-plain p plain dot dots))
            ∙ handle-rest (str "GET") _ path p (str "filepath") q qs h plain (λ empty. ground arith)
                (parse-pattern p plain) split_path
            ∙ ap (λ ps. ok (some (ps, some h))) (sym bound),
        served_file fs p (b'/' ∷ rest) c doc (
            ap (λ ps. fs.open_file (param (record c { params = ps }) (str "filepath"))) bound
            ∙ opened),
      )
