-- ===== src/Gee/Response/Tests.antt =====
-- Runs of the answers.
use go_little_project.Base.{◌≡◌, refl, List, [], ◌∷◌, ◌++◌, none, some, str, ok}
use go_little_project.Gee.Response.{
  Context, sendable, status_to, set_header, write_text, string_to, data_to, json_to, html_to,
}
use go_little_project.Gee.Response.Recorder.{recorder, recorder-IsLawful}
use go_little_project.Gee.Response.Writes.{
  Sending, strings, jsons, answer, answers, answers-first, code_of, text_of, texts_of, last_code,
}

abbrev fresh : Context recorder
fresh = record { writer = (none, []); params = []; status_code = 0 }

-- an object that cannot be encoded, and then the answer of `Recovery`
abbrev then_recovered : List Sending
then_recovered = strings 500 (str "Internal Server Error") ∷ []

abbrev answered : Context recorder
answered = record {
  writer = (some 200, str "unsupported type" ++ str "Internal Server Error");
  params = [];
  status_code = 500;
}

runs : Unit {0}
unfolding status_to set_header write_text string_to data_to json_to html_to answer answers code_of
    text_of texts_of last_code
runs = tt

-- the client is told that all is well
both : answers (jsons 200 [] (some (str "unsupported type")) ∷ then_recovered) fresh ≡ ok answered
unfolding runs
both = refl

answers-first_example :
    (recorder.status answered.writer ≡ some 200)
    × (recorder.body answered.writer ≡ str "unsupported type" ++ str "Internal Server Error")
    × (answered.status_code ≡ 500)
unfolding runs
answers-first_example =
    answers-first recorder-IsLawful (jsons 200 [] (some (str "unsupported type"))) then_recovered
      fresh answered (sendable 200 refl, (sendable 500 refl, tt)) refl refl both
