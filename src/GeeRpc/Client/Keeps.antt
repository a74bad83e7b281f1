-- ===== src/GeeRpc/Client/Keeps.antt =====
-- The invariant of the client, and that its operations keep it.
use go_little_project.Base.{
  ℕ, suc, ◌+◌, ◌%◌, ◌≤◌, ◌<◌, ◌≡◌, refl, ◌≢◌, ◌⊎◌, inl, inr, true, false, ◌||◌, [], none, some,
  GoString, GoMap, lookup, insert, delete, ◌==◌, nat_eq, str_eq, nat_beq_iff, arith, All,
  lookup-insert, lookup-insert_self, Bool-cases, Option-cases,
}
use go_little_project.Base.Int64.{modulus}
use go_little_project.GeeRpc.Client.{
  Call, Client, GoError, Response, close, update_call, complete, register_call, remove_call,
  complete_removed, send, go, cancel, receive_one, deliver, read_error, new_client_codec,
  error_shut_down,
}
use go_little_project.GeeRpc.Client.Store.{
  lookup-update_self, lookup-update_ne, HasDistinctSeqs, IsWaiting, All-lookup, All-delete,
  All-insert, All-mono, delete-HasDistinctSeqs, insert-HasDistinctSeqs, lookup-none_of_below,
  waiting_ne, All-delete_ne, All-zip,
}

-- Every pending call is in the store under its number and not completed, the numbers are
-- distinct and below the next one, and no call is completed twice.
pub record IsValid (c : Client) : Type 0 where
  pub waiting : All (IsWaiting c.calls) c.pending
  pub distinct : HasDistinctSeqs c.pending
  pub below : All (λ e. e.0 < c.seq) c.pending
  pub once : (p : ℕ) (call : Call) → lookup p c.calls ≡ some call → call.done ≤ 1

pub new-IsValid : IsValid (new_client_codec [])
unfolding new_client_codec lookup
new-IsValid = record {
  waiting = tt;
  distinct = tt;
  below = tt;
  once = λ p call h. absurd (ground arith);
}

pub dropped-IsValid :
    (c : Client) (s : ℕ) → IsValid c → IsValid (record c { pending = delete s c.pending })
dropped-IsValid c s v = record {
  waiting = All-delete (IsWaiting c.calls) s c.pending v.waiting;
  distinct = delete-HasDistinctSeqs s c.pending v.distinct;
  below = All-delete (λ e. e.0 < c.seq) s c.pending v.below;
  once = v.once;
}

-- What is written to one call leaves an entry with another call waiting.
pub kept-IsWaiting :
    (calls : GoMap ℕ Call) (p s q : ℕ) (f : Call → Call)
    → p ≢ q
    → IsWaiting calls (s, q)
    → IsWaiting (update_call p f calls) (s, q)
kept-IsWaiting calls p s q f ne (call, at, same, zero_done) =
    (call, ground (arith, lookup-update_ne p q f calls), same, zero_done)

once-update :
    (calls : GoMap ℕ Call) (p : ℕ) (f : Call → Call) (call : Call)
    → lookup p calls ≡ some call
    → (f call).done ≤ 1
    → ((q : ℕ) (d : Call) → lookup q calls ≡ some d → d.done ≤ 1)
    → (q : ℕ) (d : Call) → lookup q (update_call p f calls) ≡ some d
    → d.done ≤ 1
once-update calls p f call at le once q d h = elim (Bool-cases (p == q)) [
  | inl e ↦ ground (arith, nat_beq_iff p q, lookup-update_self p f calls call at)
  | inr e ↦ once q d (ground (arith, nat_beq_iff p q, lookup-update_ne p q f calls))
]

-- The call of an entry that is removed may be completed.
pub completed-IsValid :
    (c : Client) (s p : ℕ) (err : GoError)
    → IsValid c
    → lookup s c.pending ≡ some p
    → IsValid (record c { pending = delete s c.pending; calls = complete p err c.calls })
unfolding complete
completed-IsValid c s p err v h =
    let (call, at, same, zero_done) = All-lookup (IsWaiting c.calls) s p c.pending v.waiting h in
    let rest = dropped-IsValid c s v in
    record {
      waiting =
          All-zip (λ e. e.0 ≢ s) (IsWaiting c.calls) _ (delete s c.pending)
            (λ t q ne w.
              kept-IsWaiting c.calls p t q _
                (waiting_ne c.calls s t p q (call, at, same, zero_done) w (λ e. ne (ground arith)))
                w)
            (All-delete_ne s c.pending) rest.waiting;
      distinct = rest.distinct;
      below = rest.below;
      once = once-update c.calls p _ call at (omega arith) v.once;
    }

-- What `removeCall` does: nothing, or it takes an entry out, or there was none.
pub data Removed (c : Client) (s : ℕ) : Type 0 where
  shut : remove_call c s ≡ (c, none) → Removed c s
  missing :
      lookup s c.pending ≡ none
      → remove_call c s ≡ (record c { pending = delete s c.pending }, none)
      → Removed c s
  taken :
      (p : ℕ)
      → lookup s c.pending ≡ some p
      → remove_call c s ≡ (record c { pending = delete s c.pending }, some p)
      → Removed c s

pub remove_cases : (c : Client) (s : ℕ) → Removed c s
unfolding remove_call
remove_cases c s = elim (Bool-cases (c.shutdown || c.closing)) [
  | inl e ↦ shut (rw e refl)
  | inr e ↦ elim (Option-cases (lookup s c.pending)) [
    | inl m ↦ missing m (rw (e, m) refl)
    | inr (p, m) ↦ taken p m (rw (e, m) refl)
  ]
]

-- A response keeps the invariant.
pub receive_one-IsValid :
    (errorf : GoString → GoString) (c : Client) (r : Response)
    → IsValid c
    → IsValid (receive_one errorf c r).0
unfolding receive_one deliver
receive_one-IsValid errorf c r v = elim (remove_cases c r.header.seq) [
  | shut e ↦ rw e v
  | missing absent e ↦ rw e (dropped-IsValid c r.header.seq v)
  | taken p at e ↦ elim (Bool-cases (r.header.error == [])) [
    | inl ok ↦ rw (e, ok) (completed-IsValid c r.header.seq p (read_error r.body) v at)
    | inr bad ↦ rw (e, bad) (completed-IsValid c r.header.seq p (some (errorf r.header.error)) v at)
  ]
]

close_cases : (c : Client) → ((close c).0 ≡ c) ⊎ ((close c).0 ≡ record c { closing = true })
unfolding close
close_cases c = elim (Bool-cases c.closing) [
  | inl e ↦ inl (ground arith)
  | inr e ↦ inr (ground arith)
]

pub close-IsValid : (c : Client) → IsValid c → IsValid (close c).0
close-IsValid c v = elim (close_cases c) [
  | inl e ↦ rw e v
  | inr e ↦
      rw e (record { waiting = v.waiting; distinct = v.distinct; below = v.below; once = v.once })
]

pub cancel-IsValid : (c : Client) (p : ℕ) → IsValid c → IsValid (cancel c p)
unfolding cancel
cancel-IsValid c p v = elim (Option-cases (lookup p c.calls)) [
  | inl e ↦ rw (e, cancel) v
  | inr (call, e) ↦
      rw (e, cancel)
        (elim (remove_cases c call.seq) [
          | shut q ↦ rw q v
          | missing absent q ↦ rw q (dropped-IsValid c call.seq v)
          | taken p' at q ↦ rw q (dropped-IsValid c call.seq v)
        ])
]

-- `send` after a new call was put into the store
added-IsWaiting :
    (calls : GoMap ℕ Call) (p : ℕ) (call : Call) (s q : ℕ)
    → lookup p calls ≡ none
    → IsWaiting calls (s, q)
    → IsWaiting (insert p call calls) (s, q)
added-IsWaiting calls p call s q free (d, at, same, zero_done) =
    (d, ground (arith, lookup-insert p q call calls, nat_beq_iff p q), same, zero_done)

module _ (c : Client) (p : ℕ) (m : GoString) (v : IsValid c) (free : lookup p c.calls ≡ none) where
  abbrev new_call : Call
  new_call = record { seq = 0; service_method = m; error = none; done = 0 }

  abbrev with_call : Client
  with_call = record c { calls = insert p new_call c.calls }

  with_call-IsValid : IsValid with_call
  with_call-IsValid = record {
    waiting =
        All-mono (IsWaiting c.calls) _ c.pending
          (λ s q w. added-IsWaiting c.calls p new_call s q free w) v.waiting;
    distinct = v.distinct;
    below = v.below;
    once = λ q d h. ground (arith, lookup-insert p q new_call c.calls, v.once q d);
  }

  -- the client after `registerCall` and the write of the header
  abbrev registered : Client
  registered = record c {
    calls = update_call p (λ call. record call { seq = c.seq }) with_call.calls;
    pending = insert c.seq p c.pending;
    seq = (c.seq + 1) % modulus;
    header = record { service_method = m; seq = c.seq; error = [] };
  }

  registered-IsValid : suc c.seq < modulus → IsValid registered
  registered-IsValid small = record {
    waiting =
        All-insert _ c.seq p c.pending
          (
            _,
            lookup-update_self p _ with_call.calls new_call (lookup-insert_self p new_call c.calls),
            refl,
            refl,
          )
          (All-mono (IsWaiting c.calls) _ c.pending
            (λ s q w.
              kept-IsWaiting with_call.calls p s q _ (λ e. ground (arith, free, w.1))
                (added-IsWaiting c.calls p new_call s q free w))
            v.waiting);
    distinct =
        insert-HasDistinctSeqs c.seq p c.pending (lookup-none_of_below c.seq c.pending v.below)
          v.distinct;
    below =
        All-insert _ c.seq p c.pending (omega arith)
          (All-mono (λ e. e.0 < c.seq) _ c.pending (λ s q h. omega arith) v.below);
    once =
        once-update with_call.calls p _ new_call (lookup-insert_self p new_call c.calls)
          (omega arith) with_call-IsValid.once;
  }

  go_shut :
      (written : GoError)
      → (c.shutdown || c.closing) ≡ true
      → go c p m written
        ≡ record with_call { calls = complete p (some error_shut_down) with_call.calls }
  unfolding go send register_call
  go_shut written e = ground arith

  go_sent : (c.shutdown || c.closing) ≡ false → go c p m none ≡ registered
  unfolding go send register_call
  go_sent e = ground arith

  go_failed :
      (err : GoString)
      → (c.shutdown || c.closing) ≡ false
      → go c p m (some err) ≡ record registered {
        pending = delete c.seq registered.pending;
        calls = complete p (some err) registered.calls;
      }
  unfolding go send register_call remove_call complete_removed
  go_failed err e = ground (arith, lookup-insert_self c.seq p c.pending)

  shut_IsValid :
      (err : GoError) → IsValid (record with_call { calls = complete p err with_call.calls })
  unfolding complete
  shut_IsValid err = record {
    waiting =
        All-mono (IsWaiting c.calls) _ c.pending
          (λ s q w.
            kept-IsWaiting with_call.calls p s q _ (λ e. ground (arith, free, w.1))
              (added-IsWaiting c.calls p new_call s q free w))
          v.waiting;
    distinct = v.distinct;
    below = v.below;
    once =
        once-update with_call.calls p _ new_call (lookup-insert_self p new_call c.calls)
          (omega arith) with_call-IsValid.once;
  }

  go_open :
      (written : GoError)
      → suc c.seq < modulus
      → (c.shutdown || c.closing) ≡ false
      → IsValid (go c p m written)
  go_open none small e = rw (go_sent e) (registered-IsValid small)
  go_open (some err) small e = rw (go_failed err e) (
      completed-IsValid registered c.seq p (some err) (registered-IsValid small)
        (lookup-insert_self c.seq p c.pending))

  -- A new call keeps the invariant, whether it is sent, fails or is refused.
  pub go-IsValid : (written : GoError) → suc c.seq < modulus → IsValid (go c p m written)
  go-IsValid written small = elim (Bool-cases (c.shutdown || c.closing)) [
    | inl e ↦ rw (go_shut written e) (shut_IsValid (some error_shut_down))
    | inr e ↦ go_open written small e
  ]
