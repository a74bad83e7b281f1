-- ===== src/GeeRpc/Client/Ends.antt =====
-- How the calls end: each is completed once, at the latest when `receive` ends.
use go_little_project.Base.{
  ℕ, suc, ◌≡◌, refl, sym, subst, ◌∙◌, ◌≢◌, inl, inr, List, [], ◌∷◌, none, some, GoString, GoMap,
  lookup, delete, ◌==◌, nat_eq, str_eq, nat_beq_iff, arith, All, lookup-delete, Bool-cases,
  Option-cases,
}
use go_little_project.GeeRpc.Client.{
  Call, Client, GoError, Response, complete, finish, terminate_calls, deliver, receive_one, receive,
  read_error,
}
use go_little_project.GeeRpc.Client.Store.{
  lookup-update_self, lookup-update_ne, HasDistinctSeqs, IsWaiting, All-lookup, All-mono, All-zip,
  waiting_ne, All-ne_of_none,
}
use go_little_project.GeeRpc.Client.Keeps.{
  IsValid, shut, missing, taken, remove_cases, receive_one-IsValid, kept-IsWaiting,
}

-- the call at the address was completed once, with the error
abbrev pub EndsWith : GoMap ℕ Call → ℕ → GoError → Type 0
EndsWith calls p err =
    (call : Call) × (lookup p calls ≡ some call) × (call.done ≡ 1) × (call.error ≡ err)

pub finish_other :
    (err : GoError) (q : ℕ) (m : GoMap ℕ ℕ) (calls : GoMap ℕ Call)
    → All (λ e. e.1 ≢ q) m
    → lookup q (finish err m calls) ≡ lookup q calls
unfolding finish complete
finish_other err q [] calls a = refl
finish_other err q ((s, p) ∷ m) calls (ne, a) =
    finish_other err q m _ a ∙ lookup-update_ne p q _ calls ne

pub completed_EndsWith :
    (err : GoError) (s p : ℕ) (calls : GoMap ℕ Call)
    → IsWaiting calls (s, p)
    → EndsWith (complete p err calls) p err
unfolding complete
completed_EndsWith err s p calls (call, at, same, zero_done) = (
  record call { error = err; done = suc call.done },
  lookup-update_self p _ calls call at,
  omega arith,
  refl,
)

kept_complete :
    (calls : GoMap ℕ Call) (p s q : ℕ) (err : GoError)
    → p ≢ q
    → IsWaiting calls (s, q)
    → IsWaiting (complete p err calls) (s, q)
unfolding complete
kept_complete calls p s q err ne w = kept-IsWaiting calls p s q _ ne w

-- `terminateCalls` completes every entry.
finish_entry :
    (err : GoError) (s p : ℕ) (m : GoMap ℕ ℕ) (calls : GoMap ℕ Call)
    → All (IsWaiting calls) m
    → HasDistinctSeqs m
    → lookup s m ≡ some p
    → EndsWith (finish err m calls) p err
unfolding finish lookup
finish_entry err s p [] calls w d h = absurd (ground arith)
finish_entry err s p ((t, q) ∷ m) calls (x, w) (fresh, d) h =
    let apart =
      All-zip (λ e. e.0 ≢ t) (IsWaiting calls) (λ e. (e.1 ≢ q) × IsWaiting (complete q err calls) e)
        m
        (λ u r ne y.
          let other = waiting_ne calls u t r q y x ne in
          (other, kept_complete calls q u r err (λ e. other (sym e)) y))
        (All-ne_of_none t m fresh) w in
    elim (Bool-cases (t == s)) [
      | inl e ↦
          let same : q ≡ p = ground arith in
          let (call, at, done, error) = completed_EndsWith err t q calls x in
          subst (λ a. EndsWith (finish err m (complete q err calls)) a err) same
            (
              call,
              finish_other err q m (complete q err calls)
                    (All-mono _ (λ e. e.1 ≢ q) m (λ u r y. y.0) apart)
                  ∙ at,
              done,
              error,
            )
      | inr e ↦
          finish_entry err s p m (complete q err calls) (All-mono _ _ m (λ u r y. y.1) apart) d
            (ground arith)
    ]

-- pending, or completed once
data Tracked (c : Client) (p : ℕ) : Type 0 where
  pends : (s : ℕ) → lookup s c.pending ≡ some p → Tracked c p
  ended : (call : Call) → lookup p c.calls ≡ some call → call.done ≡ 1 → Tracked c p

-- A completed call is not among the entries.
pub ended_apart :
    (c : Client) (p : ℕ) (call : Call)
    → IsValid c
    → lookup p c.calls ≡ some call
    → call.done ≡ 1
    → All (λ e. e.1 ≢ p) c.pending
ended_apart c p call v at done =
    All-mono (IsWaiting c.calls) (λ e. e.1 ≢ p) c.pending
      (λ s q w e. ground (arith, w.1, w.3, at, done)) v.waiting

pub complete_ne :
    (p q : ℕ) (err : GoError) (calls : GoMap ℕ Call)
    → p ≢ q
    → lookup q (complete p err calls) ≡ lookup q calls
unfolding complete
complete_ne p q err calls ne = lookup-update_ne p q _ calls ne

delivered_Tracked :
    (err : GoError) (c : Client) (p s' p' : ℕ)
    → IsValid c
    → lookup s' c.pending ≡ some p'
    → Tracked c p
    → Tracked (record c { pending = delete s' c.pending; calls = complete p' err c.calls }) p
delivered_Tracked err c p s' p' v h (pends s at) = elim (Bool-cases (s' == s)) [
  | inl e ↦
      let same : p' ≡ p = ground (arith, nat_beq_iff s' s) in
      let (call, found, done, error) =
        completed_EndsWith err s' p' c.calls
          (All-lookup (IsWaiting c.calls) s' p' c.pending v.waiting h) in
      ended call (rw (← same) found) done
  | inr e ↦ pends s (ground (arith, lookup-delete s' s c.pending))
]
delivered_Tracked err c p s' p' v h (ended call at done) =
    let ne = All-lookup (λ e. e.1 ≢ p) s' p' c.pending (ended_apart c p call v at done) h in
    ended call (complete_ne p' p err c.calls ne ∙ at) done

missed_Tracked :
    (c : Client) (p s' : ℕ)
    → lookup s' c.pending ≡ none
    → Tracked c p
    → Tracked (record c { pending = delete s' c.pending }) p
missed_Tracked c p s' absent (pends s at) =
    pends s (ground (arith, lookup-delete s' s c.pending, nat_beq_iff s' s))
missed_Tracked c p s' absent (ended call at done) = ended call at done

receive_one-Tracked :
    (errorf : GoString → GoString) (c : Client) (r : Response) (p : ℕ)
    → IsValid c
    → Tracked c p
    → Tracked (receive_one errorf c r).0 p
unfolding receive_one deliver
receive_one-Tracked errorf c r p v t = elim (remove_cases c r.header.seq) [
  | shut e ↦ rw e t
  | missing absent e ↦ rw e (missed_Tracked c p r.header.seq absent t)
  | taken p' at e ↦ elim (Bool-cases (r.header.error == [])) [
    | inl ok ↦ rw (e, ok) (delivered_Tracked (read_error r.body) c p r.header.seq p' v at t)
    | inr bad ↦
        rw (e, bad) (delivered_Tracked (some (errorf r.header.error)) c p r.header.seq p' v at t)
  ]
]

terminate_Tracked :
    (c : Client) (p : ℕ) (err : GoError)
    → IsValid c
    → Tracked c p
    → (call : Call) × (lookup p (terminate_calls c err).calls ≡ some call) × (call.done ≡ 1)
unfolding terminate_calls
terminate_Tracked c p err v (pends s at) =
    let (call, found, done, error) =
      finish_entry err s p c.pending c.calls v.waiting v.distinct at in
    (call, found, done)
terminate_Tracked c p err v (ended call at done) =
    (call, finish_other err p c.pending c.calls (ended_apart c p call v at done) ∙ at, done)

receive-Tracked :
    (errorf : GoString → GoString) (rs : List Response) (c : Client) (p : ℕ)
    → IsValid c
    → Tracked c p
    → (call : Call) × (lookup p (receive errorf c rs).calls ≡ some call) × (call.done ≡ 1)
unfolding receive
receive-Tracked errorf [] c p v t = terminate_Tracked c p none v t
receive-Tracked errorf (r ∷ rs) c p v t =
    let valid = receive_one-IsValid errorf c r v in
    let tracked = receive_one-Tracked errorf c r p v t in
    elim (Option-cases (receive_one errorf c r).1) [
      | inl e ↦
          rw (e, receive) (receive-Tracked errorf rs (receive_one errorf c r).0 p valid tracked)
      | inr (err, e) ↦
          rw (e, receive) (terminate_Tracked (receive_one errorf c r).0 p (some err) valid tracked)
    ]

-- Whatever responses arrive, and whether or not the client is closed: a call that is pending when
-- `receive` begins has been completed exactly once when `receive` ends.
pub receive-completes :
    (errorf : GoString → GoString) (rs : List Response) (c : Client) (s p : ℕ)
    → IsValid c
    → lookup s c.pending ≡ some p
    → (call : Call) × (lookup p (receive errorf c rs).calls ≡ some call) × (call.done ≡ 1)
receive-completes errorf rs c s p v h = receive-Tracked errorf rs c p v (pends s h)

pub still_pending :
    (errorf : GoString → GoString) (c : Client) (r : Response) (s p : ℕ)
    → r.header.seq ≢ s
    → lookup s c.pending ≡ some p
    → lookup s (receive_one errorf c r).0.pending ≡ some p
unfolding receive_one deliver
still_pending errorf c r s p ne h =
    let kept : lookup s (delete r.header.seq c.pending) ≡ some p =
      ground (arith, lookup-delete r.header.seq s c.pending, nat_beq_iff r.header.seq s) in
    elim (remove_cases c r.header.seq) [
      | shut e ↦ rw e h
      | missing absent e ↦ rw e kept
      | taken p' at e ↦ elim (Bool-cases (r.header.error == [])) [
        | inl ok ↦ rw (e, ok) kept
        | inr bad ↦ rw (e, bad) kept
      ]
    ]

pub body_error :
    (errorf : GoString → GoString) (c : Client) (r : Response) → (receive_one errorf c r).1 ≡ r.body
unfolding receive_one deliver
body_error errorf c r = elim (remove_cases c r.header.seq) [
  | shut e ↦ rw e refl
  | missing absent e ↦ rw e refl
  | taken p' at e ↦ elim (Bool-cases (r.header.error == [])) [
    | inl ok ↦ rw (e, ok) refl
    | inr bad ↦ rw (e, bad) refl
  ]
]

-- A pending call whose number no response carries, where every body can be read, is completed
-- with the error nil when the connection fails: its caller takes it for answered.
pub receive-unanswered :
    (errorf : GoString → GoString) (rs : List Response) (c : Client) (s p : ℕ)
    → IsValid c
    → lookup s c.pending ≡ some p
    → All (λ r. (r.header.seq ≢ s) × (r.body ≡ none)) rs
    → EndsWith (receive errorf c rs).calls p none
unfolding receive terminate_calls
receive-unanswered errorf [] c s p v h a =
    finish_entry none s p c.pending c.calls v.waiting v.distinct h
receive-unanswered errorf (r ∷ rs) c s p v h ((ne, good), a) =
    rw (body_error errorf c r ∙ good, receive)
      (receive-unanswered errorf rs (receive_one errorf c r).0 s p
        (receive_one-IsValid errorf c r v) (still_pending errorf c r s p ne h) a)
