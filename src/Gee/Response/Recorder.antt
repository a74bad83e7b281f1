-- ===== src/Gee/Response/Recorder.antt =====
-- A response writer that keeps its status and its body.
use go_little_project.Base.{ℕ, refl, ◌++◌, Option, GoString}
use go_little_project.Gee.Response.{ResponseWriter, IsLawful, first_status}

abbrev pub recorder : ResponseWriter
recorder = record {
  State = Option ℕ × GoString;
  set_key = λ s k v. s;
  write_header = λ s code. (first_status s.0 code, s.1);
  write = λ s text. (first_status s.0 200, s.1 ++ text);
  error = λ s message code. (first_status s.0 code, s.1 ++ message);
  error_text = λ message. message;
  status = λ s. s.0;
  body = λ s. s.1;
}

pub recorder-IsLawful : IsLawful recorder
recorder-IsLawful = record {
  status-write_header = λ s code h. refl;
  status-write = λ s text. refl;
  status-set = λ s k v. refl;
  body-write_header = λ s code h. refl;
  body-write = λ s text h. refl;
  status-error = λ s message code h. refl;
  body-error = λ s message code h o. refl;
  body-set = λ s k v. refl;
}
