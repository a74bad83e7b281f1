-- ===== src/Gee/Static/Tests.antt =====
-- Runs of the static files.
use go_little_project.Base.{
  ◌≡◌, refl, ap, false, [], ◌∷◌, ◌++◌, Option, none, some, GoString, str, has_prefix, ok, arith,
  nat_beq, nat_beq_iff, Bool-cases, inl, inr, if◌then◌else◌, split_from, join,
}
use go_little_project.Gee.Router.{handle, parse_patterns, parse_parts}
use go_little_project.Gee.Router.Wildcards.{IsPlain}
use go_little_project.Gee.Response.{first_status, Context}
use go_little_project.Gee.Response.Recorder.{recorder, recorder-IsLawful}
use go_little_project.Gee.Engine.{Engine}
use go_little_project.Gee.Static.{Files, IsDocumented, HttpHandler, HandlerFunc}
use go_little_project.Gee.Static.Below.{
  group_files, root_files, group_files-lost, root_files-serves, rest_params,
}

abbrev stripped : GoString → GoString → Option GoString
stripped [] s = some s
stripped (b ∷ t) [] = none
stripped (b ∷ t) (a ∷ s) = if nat_beq a b then stripped t s else none

stripped-append : (t rest : GoString) → stripped t (t ++ rest) ≡ some rest
stripped-append [] rest = refl
stripped-append (b ∷ t) rest = ground (arith, stripped-append t rest, nat_beq_iff b b)

stripped-missing : (s t : GoString) → has_prefix s t ≡ false → stripped t s ≡ none
stripped-missing s [] e = absurd (ground (arith, e))
stripped-missing [] (b ∷ t) e = refl
stripped-missing (a ∷ s) (b ∷ t) e = elim (Bool-cases (nat_beq a b)) [
  | inl same ↦ rw same (stripped-missing s t (ground (arith, e, same)))
  | inr other ↦ rw other refl
]

abbrev handed : Option GoString → HttpHandler recorder → recorder.State → recorder.State
handed (some rest) h s = h rest s
handed none h s = (first_status s.0 404, s.1)

-- a file server that answers with the path
abbrev disk : Files recorder
disk = record {
  path_join = λ a b. a ++ b;
  file_server = λ path s. (first_status s.0 200, s.1 ++ path);
  strip_prefix = λ prefix h path s. handed (stripped prefix path) h s;
  open_file = λ name. none;
}

disk-IsDocumented : IsDocumented disk
disk-IsDocumented = record {
  join-plain = λ p h dot dots. refl;
  strip-found = λ prefix rest h. ap (λ found. λ s. handed found h s) (stripped-append prefix rest);
  strip-missing = λ prefix path h s e.
      ap (λ found. recorder.status (handed found h s)) (stripped-missing path prefix e);
}

IsPlain-v1 : IsPlain (str "v1")
IsPlain-v1 = record {
  full = λ e. ground arith;
  no_name = refl;
  no_star = refl;
  one = ((λ e. omega (arith, e)), ((λ e. omega (arith, e)), tt));
}

IsPlain-css : IsPlain (str "css")
IsPlain-css = record {
  full = λ e. ground arith;
  no_name = refl;
  no_star = refl;
  one = ((λ e. omega (arith, e)), ((λ e. omega (arith, e)), ((λ e. omega (arith, e)), tt)));
}

split_css : parse_patterns (str "/css/v1") ≡ str "css" ∷ str "v1" ∷ []
unfolding parse_patterns parse_parts split_from
split_css = refl

abbrev page : Context recorder
page = record { writer = (none, []); params = rest_params (str "v1") []; status_code = 0 }

group_files-lost_example :
    (e : Engine (HandlerFunc recorder)) × (h : HandlerFunc recorder) × (group_files disk
        (str "/v1")
        (str "/css")
      ≡ ok e)
    × (handle e.router (str "GET") (str "/css/v1") ≡ ok (some (page.params, some h)))
    × (recorder.status (h (str "/css/v1") page).writer ≡ some 404)
group_files-lost_example =
    group_files-lost disk (str "v1") (str "css") (str "v1") (str "/css/v1") [] page
      recorder-IsLawful disk-IsDocumented IsPlain-v1 IsPlain-css (λ e. ground arith)
      (λ e. ground arith) (λ e. ground arith) split_css

root_files-serves_example :
    (e : Engine (HandlerFunc recorder)) × (h : HandlerFunc recorder) × (root_files disk (str "/css")
      ≡ ok e)
    × (handle e.router (str "GET") (str "/css/v1") ≡ ok (some (page.params, some h)))
    × ((h (str "/css/v1") page).writer ≡ (some 200, str "/v1"))
unfolding join
root_files-serves_example =
    root_files-serves disk (str "css") (str "v1") [] page disk-IsDocumented IsPlain-css
      (λ e. ground arith) (λ e. ground arith) (IsPlain-v1, tt) refl refl
