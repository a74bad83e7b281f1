-- ===== src/Gee/Static.antt =====
-- gee/context/mygee/gee.go: the files that a group serves. path.Join, the file system, http.FileServer
-- and http.StripPrefix are parameters.
pub mod Paths
pub mod Below
mod Tests
use go_little_project.Base.{
  ℕ, ◌≡◌, ◌≢◌, false, List, [], ◌∷◌, ◌++◌, some, none, GoString, str, has_prefix, Outcome,
  get_elem?, demand, ◌>>=◌,
}
use go_little_project.GeeRpc.Client.{GoError}
use go_little_project.Gee.Router.Wildcards.{IsPlain}
use go_little_project.Gee.Response.{
  ResponseWriter, IsLawful, first_status, Context, status_to, param,
}
use go_little_project.Gee.Engine.{Engine, RouterGroup, get_on}

-- an http.HttpHandler, for the path of a request
abbrev pub HttpHandler : ResponseWriter → Type 0
HttpHandler w = GoString → w.State → w.State

-- a HandlerFunc
abbrev pub HandlerFunc : ResponseWriter → Type 0
HandlerFunc w = GoString → Context w → Context w

-- path.Join, `http.FileServer`, `http.StripPrefix`, and `Open` of the file system with its error
pub record Files (w : ResponseWriter) : Type 0 where
  pub path_join : GoString → GoString → GoString
  pub file_server : HttpHandler w
  pub strip_prefix : GoString → HttpHandler w → HttpHandler w
  pub open_file : GoString → GoError

-- What is documented: path.Join puts a path below a clean one, and StripPrefix hands a request on
-- without the prefix, or answers 404 if the path lacks it.
pub record IsDocumented {w : ResponseWriter} (fs : Files w) : Type 0 where
  pub join-plain :
      (p : GoString)
      → IsPlain p
      → p ≢ str "."
      → p ≢ str ".."
      → fs.path_join (b'/' ∷ p) (str "/*filepath") ≡ b'/' ∷ p ++ str "/*filepath"
  pub strip-found :
      (prefix rest : GoString) (h : HttpHandler w)
      → fs.strip_prefix prefix h (prefix ++ rest) ≡ h rest
  pub strip-missing :
      (prefix path : GoString) (h : HttpHandler w) (s : w.State)
      → has_prefix path prefix ≡ false
      → w.status (fs.strip_prefix prefix h path s) ≡ first_status (w.status s) 404

module _ {w : ResponseWriter} where
  -- `createStaticHandler`
  unfoldable pub create_static_handler : Files w → RouterGroup → GoString → HandlerFunc w
  create_static_handler fs g relative =
      let absolute_path = g.prefix ++ relative in
      let file_server = fs.strip_prefix absolute_path fs.file_server in
      λ path c. elim (fs.open_file (param c (str "filepath"))) [
        | some err ↦ status_to c 404
        | none ↦ record c { writer = file_server path c.writer }
      ]

  -- `Static`
  unfoldable pub static_on :
      Files w → Engine (HandlerFunc w) → ℕ → GoString → Outcome (Engine (HandlerFunc w))
  static_on fs e i relative = do
    g ← demand (get_elem? e.router_groups i)
    get_on e i (fs.path_join relative (str "/*filepath")) (create_static_handler fs g relative)
