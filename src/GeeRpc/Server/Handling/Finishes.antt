-- ===== src/GeeRpc/Server/Handling/Finishes.antt =====
-- Whether `handleRequest` returns.
use go_little_project.Base.{◌≡◌, refl, Bool, true, false, List, [], ◌∷◌, ◌++◌, some, inl, inr, ◌⊎◌}
use go_little_project.GeeRpc.Server.Handling.{
  Response, reply, method_error, MainAt, at_reply, at_sent, at_called, at_take, at_late, main_done,
  WorkerAt, at_method, at_put, worker_done, Handling, Move, main_moves, worker_moves, timer_fires,
  begin_handling, main_step, worker_step, timer_step, move, settle, schedule,
}

-- Before the send on `sent`.
abbrev pub IsBefore : MainAt → Type 0
IsBefore at_reply = Unit
IsBefore at_sent = Unit
IsBefore at_called = ⊥
IsBefore at_take = ⊥
IsBefore at_late = ⊥
IsBefore main_done = ⊥

abbrev reached : Bool → MainAt
reached false = at_reply
reached true = at_sent

reached-IsBefore : (replied : Bool) → IsBefore (reached replied)
reached-IsBefore false = tt
reached-IsBefore true = tt

-- The goroutine is done and has filled `sent` before `handleRequest` could.
abbrev jammed : Bool → Bool → List Response → Handling
jammed replied called rs = record {
  main = reached replied;
  worker = worker_done;
  called = called;
  sent = true;
  responses = rs;
}

schedule-jammed :
    (fails timed : Bool) (ms : List Move) (replied called : Bool) (rs : List Response)
    → IsBefore (schedule fails timed ms (jammed replied called rs)).main
unfolding schedule settle move main_step worker_step timer_step
schedule-jammed fails timed [] r called rs = reached-IsBefore r
schedule-jammed fails timed (main_moves ∷ ms) false called rs =
    schedule-jammed fails timed ms true called (rs ++ reply ∷ [])
schedule-jammed fails timed (main_moves ∷ ms) true called rs =
    schedule-jammed fails timed ms true called rs
schedule-jammed fails timed (worker_moves ∷ ms) r called rs =
    schedule-jammed fails timed ms r called rs
schedule-jammed fails true (timer_fires ∷ ms) false called rs =
    schedule-jammed fails true ms false called rs
schedule-jammed fails true (timer_fires ∷ ms) true called rs =
    schedule-jammed fails true ms true called rs
schedule-jammed fails false (timer_fires ∷ ms) r called rs =
    schedule-jammed fails false ms r called rs

-- When the method returns an error, and its goroutine has made its four steps before
-- `handleRequest` makes its first, the latter never gets past its send on `sent`, whatever the
-- schedule is from there and whether or not there is a timeout.
pub schedule-IsBefore :
    (timed : Bool) (ms : List Move)
    → IsBefore
        (schedule true timed
          (worker_moves ∷ worker_moves ∷ worker_moves ∷ worker_moves ∷ ms)
          begin_handling).main
unfolding schedule settle move worker_step
schedule-IsBefore timed ms = schedule-jammed true timed ms false true (method_error ∷ [])

-- The states of a request whose method returns no error, without a timeout.
data Early : Type 0 where
  replying sending calling : Early

data Late : Type 0 where
  running putting over : Late

data Phase : Type 0 where
  early : Early → Late → Phase
  taking finished : Phase

abbrev main_of : Early → MainAt
main_of replying = at_reply
main_of sending = at_sent
main_of calling = at_called

abbrev worker_of : Late → WorkerAt
worker_of running = at_method
worker_of putting = at_put
worker_of over = worker_done

abbrev has_put : Late → Bool
has_put running = false
has_put putting = false
has_put over = true

abbrev has_sent : Early → Bool
has_sent replying = false
has_sent sending = false
has_sent calling = true

abbrev said : Early → List Response
said replying = []
said sending = reply ∷ []
said calling = reply ∷ []

abbrev state : Phase → Handling
state (early e w) = record {
  main = main_of e;
  worker = worker_of w;
  called = has_put w;
  sent = has_sent e;
  responses = said e;
}
state taking = record {
  main = at_take;
  worker = worker_done;
  called = false;
  sent = true;
  responses = reply ∷ [];
}
state finished = record {
  main = main_done;
  worker = worker_done;
  called = false;
  sent = false;
  responses = reply ∷ [];
}

phase-step :
    (m : Move) (p : Phase)
    → (p' : Phase) × (settle (state p) (move false false m (state p)) ≡ state p')
unfolding settle move main_step worker_step timer_step
phase-step main_moves (early replying w) = (early sending w, refl)
phase-step main_moves (early sending w) = (early calling w, refl)
phase-step main_moves (early calling running) = (early calling running, refl)
phase-step main_moves (early calling putting) = (early calling putting, refl)
phase-step main_moves (early calling over) = (taking, refl)
phase-step main_moves taking = (finished, refl)
phase-step main_moves finished = (finished, refl)
phase-step worker_moves (early e running) = (early e putting, refl)
phase-step worker_moves (early e putting) = (early e over, refl)
phase-step worker_moves (early e over) = (early e over, refl)
phase-step worker_moves taking = (taking, refl)
phase-step worker_moves finished = (finished, refl)
phase-step timer_fires p = (p, refl)

schedule-phase :
    (ms : List Move) (p : Phase) → (p' : Phase) × (schedule false false ms (state p) ≡ state p')
unfolding schedule
schedule-phase [] p = (p, refl)
schedule-phase (m ∷ ms) p =
    let (q, e) = phase-step m p in let (r, rest) = schedule-phase ms q in (r, rw e rest)

-- The request is answered once and both goroutines have returned, or one of them can go on.
abbrev pub GoesOn : Handling → Type 0
GoesOn h =
    ((h.main ≡ main_done) × (h.worker ≡ worker_done) × (h.responses ≡ reply ∷ []))
    ⊎ ((m : Move) × (h' : Handling) × (move false false m h ≡ some h'))

phase-GoesOn : (p : Phase) → GoesOn (state p)
unfolding move main_step worker_step
phase-GoesOn (early replying w) = inr (main_moves, _, refl)
phase-GoesOn (early sending w) = inr (main_moves, _, refl)
phase-GoesOn (early calling running) = inr (worker_moves, _, refl)
phase-GoesOn (early calling putting) = inr (worker_moves, _, refl)
phase-GoesOn (early calling over) = inr (main_moves, _, refl)
phase-GoesOn taking = inr (main_moves, _, refl)
phase-GoesOn finished = inl (refl, refl, refl)

-- When the method returns no error and there is no timeout, no schedule leads to a deadlock: at
-- every moment a goroutine can go on, or both have returned and exactly one response, the reply,
-- has been sent.
pub schedule-GoesOn : (ms : List Move) → GoesOn (schedule false false ms begin_handling)
schedule-GoesOn ms =
    let (p, e) = schedule-phase ms (early replying running) in rw e (phase-GoesOn p)
