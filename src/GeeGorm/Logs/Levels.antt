-- ===== src/GeeGorm/Logs/Levels.antt =====
-- What a level prints.
use go_little_project.Base.{
  ℕ, ◌≡◌, refl, sym, ap, ◌∙◌, Bool, true, false, inl, inr, List, [], ◌∷◌, ◌++◌, GoString, leb,
  if◌then◌else◌, map, keep, arith, Bool-cases,
}
use mathlib.Core.List.{append_assoc, append-nil}
use go_little_project.GeeGorm.Logs.{
  Loggers, set_level, log_error, log_info, info_level, error_level,
}

-- what a program logs
pub data Entry : Type 0 where
  infos errors : GoString → Entry

abbrev pub level_of : Entry → ℕ
level_of (infos text) = info_level
level_of (errors text) = error_level

abbrev pub text_of : Entry → GoString
text_of (infos text) = text
text_of (errors text) = text

unfoldable pub log_all : List Entry → Loggers → Loggers
log_all [] l = l
log_all (infos text ∷ rest) l = log_all rest (log_info text l)
log_all (errors text ∷ rest) l = log_all rest (log_error text l)

-- the entries of a level and above
abbrev pub wanted : ℕ → List Entry → List GoString
wanted level entries = map text_of (keep (λ e. leb level (level_of e)) entries)

record IsAt (level : ℕ) (l : Loggers) : Type 0 where
  error_on : l.error_on ≡ leb level error_level
  info_on : l.info_on ≡ leb level info_level

set_level-IsAt : (level : ℕ) (l : Loggers) → IsAt level (set_level level l)
unfolding set_level
set_level-IsAt level l = record { error_on = ground arith; info_on = ground arith }

-- an entry, logged if it is wanted
abbrev logged : Bool → GoString → Loggers → Loggers
logged on text l = if on then record l { printed = l.printed ++ text ∷ [] } else l

logged-IsAt :
    (level : ℕ) (on : Bool) (text : GoString) (l : Loggers)
    → IsAt level l
    → IsAt level (logged on text l)
logged-IsAt level true text l at = record { error_on = at.error_on; info_on = at.info_on }
logged-IsAt level false text l at = at

-- an entry before the others
logged-printed :
    (level : ℕ) (e : Entry) (rest : List Entry) (l : Loggers)
    → (logged (leb level (level_of e)) (text_of e) l).printed ++ wanted level rest
      ≡ l.printed ++ wanted level (e ∷ rest)
logged-printed level e rest l = elim (Bool-cases (leb level (level_of e))) [
  | inl on ↦ rw on (append_assoc l.printed (text_of e ∷ []) (wanted level rest))
  | inr off ↦ rw off refl
]

set_level-printed : (level : ℕ) (l : Loggers) → (set_level level l).printed ≡ l.printed
unfolding set_level
set_level-printed level l = ground arith

log_all_lem :
    (level : ℕ) (entries : List Entry) (l : Loggers)
    → IsAt level l
    → (log_all entries l).printed ≡ l.printed ++ wanted level entries
unfolding log_all log_info log_error
log_all_lem level [] l at = sym (append-nil l.printed)
log_all_lem level (infos text ∷ rest) l at =
    log_all_lem level rest (log_info text l) (logged-IsAt level l.info_on text l at)
    ∙ ap (λ on. (logged on text l).printed ++ wanted level rest) at.info_on
    ∙ logged-printed level (infos text) rest l
log_all_lem level (errors text ∷ rest) l at =
    log_all_lem level rest (log_error text l) (logged-IsAt level l.error_on text l at)
    ∙ ap (λ on. (logged on text l).printed ++ wanted level rest) at.error_on
    ∙ logged-printed level (errors text) rest l

-- After SetLevel, whatever the level was before, exactly the entries of this level and above are
-- printed, in their order.
pub log_all-set_level :
    (level : ℕ) (entries : List Entry) (l : Loggers)
    → (log_all entries (set_level level l)).printed ≡ l.printed ++ wanted level entries
unfolding set_level
log_all-set_level level entries l =
    log_all_lem level entries (set_level level l) (set_level-IsAt level l)
    ∙ ap (λ p. p ++ wanted level entries) (set_level-printed level l)
