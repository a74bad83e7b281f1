-- ===== src/GeeRpc/Client/Cancels.antt =====
-- What becomes of a call that its caller has given up.
use go_little_project.Base.{
  ℕ, ◌≡◌, refl, ap, ◌∙◌, sym, ◌≢◌, false, inl, inr, List, [], ◌∷◌, none, some, GoString, lookup,
  delete, nat_eq, All, arith, Bool-cases, Option-cases, str_eq, ◌==◌, if◌then◌else◌,
}
use go_little_project.GeeRpc.Client.{
  Client, GoError, Response, cancel, receive_one, deliver, remove_call, complete, terminate_calls,
}
use go_little_project.GeeRpc.Client.Store.{
  All-lookup, All-delete, All-zip, All-delete_ne, IsWaiting, waiting_ne,
}
use go_little_project.GeeRpc.Client.Keeps.{IsValid, remove_cases, shut, missing, taken}
use go_little_project.GeeRpc.Client.Ends.{finish_other, complete_ne}
use go_little_project.GeeRpc.Client.Calls.{
  Turn, arrives, connection_ends, takes_done, context_ends, call_turn, read_turn, after_read,
}

module _ (errorf : GoString → GoString) (p : ℕ) where
  -- The client after all turns, whether or not the caller waits.
  unfoldable pub all_turns : List Turn → Client → Client
  all_turns [] c = c
  all_turns (t ∷ ts) c = all_turns ts (call_turn errorf p t c).0

  -- nothing pends for the call at `p`
  abbrev IsForgotten : Client → Type 0
  IsForgotten c = All (λ e. e.1 ≢ p) c.pending

  -- the call is as it was, and still nothing pends for it
  record Leaves (c c' : Client) : Type 0 where
    forgotten : IsForgotten c'
    same : lookup p c'.calls ≡ lookup p c.calls

  unchanged : (c : Client) → IsForgotten c → Leaves c c
  unchanged c f = record { forgotten = f; same = refl }

  dropped_Leaves :
      (c : Client) (s : ℕ) → IsForgotten c → Leaves c (record c { pending = delete s c.pending })
  dropped_Leaves c s f = record { forgotten = All-delete (λ e. e.1 ≢ p) s c.pending f; same = refl }

  completed_Leaves :
      (c : Client) (s q : ℕ) (err : GoError)
      → IsForgotten c
      → lookup s c.pending ≡ some q
      → Leaves c (record c { pending = delete s c.pending; calls = complete q err c.calls })
  completed_Leaves c s q err f at = record {
    forgotten = All-delete (λ e. e.1 ≢ p) s c.pending f;
    same = complete_ne q p err c.calls (All-lookup (λ e. e.1 ≢ p) s q c.pending f at);
  }

  receive_one-Leaves :
      (c : Client) (r : Response) → IsForgotten c → Leaves c (receive_one errorf c r).0
  unfolding receive_one deliver
  receive_one-Leaves c r f = elim (remove_cases c r.header.seq) [
    | shut e ↦ rw e (unchanged c f)
    | missing absent e ↦ rw e (dropped_Leaves c r.header.seq f)
    | taken q at e ↦ elim (Bool-cases (r.header.error == [])) [
      | inl fine ↦ rw (e, fine) (completed_Leaves c r.header.seq q _ f at)
      | inr bad ↦ rw (e, bad) (completed_Leaves c r.header.seq q _ f at)
    ]
  ]

  terminate_Leaves :
      (c c' : Client) (err : GoError) → Leaves c c' → Leaves c (terminate_calls c' err)
  unfolding terminate_calls
  terminate_Leaves c c' err l = record {
    forgotten = l.forgotten;
    same = finish_other err p c'.pending c'.calls l.forgotten ∙ l.same;
  }

  after_read-Leaves :
      (c c' : Client) (failed : GoError) → Leaves c c' → Leaves c (after_read (c', failed))
  after_read-Leaves c c' none l = l
  after_read-Leaves c c' (some e) l = terminate_Leaves c c' (some e) l

  if_Leaves : (b : _) (c c' : Client) → IsForgotten c → Leaves c c' → Leaves c (if b then c else c')
  if_Leaves b c c' f l = elim (Bool-cases b) [ inl e ↦ rw e (unchanged c f) | inr e ↦ rw e l ]

  cancel-Leaves : (c : Client) → IsForgotten c → Leaves c (cancel c p)
  unfolding cancel
  cancel-Leaves c f = elim (Option-cases (lookup p c.calls)) [
    | inl e ↦ rw (e, cancel) (unchanged c f)
    | inr (call, e) ↦
        rw (e, cancel)
          (elim (remove_cases c call.seq) [
            | shut q ↦ rw q (unchanged c f)
            | missing absent q ↦ rw q (dropped_Leaves c call.seq f)
            | taken p' at q ↦ rw q (dropped_Leaves c call.seq f)
          ])
  ]

  turn_Leaves : (t : Turn) (c : Client) → IsForgotten c → Leaves c (call_turn errorf p t c).0
  unfolding call_turn read_turn
  turn_Leaves (arrives r) c f = if_Leaves c.shutdown c _ f (
      after_read-Leaves c (receive_one errorf c r).0 (receive_one errorf c r).1
        (receive_one-Leaves c r f))
  turn_Leaves connection_ends c f =
      if_Leaves c.shutdown c _ f (terminate_Leaves c c none (unchanged c f))
  turn_Leaves takes_done c f = unchanged c f
  turn_Leaves (context_ends err) c f = cancel-Leaves c f

  turns_lem :
      (ts : List Turn) (c : Client)
      → IsForgotten c
      → lookup p (all_turns ts c).calls ≡ lookup p c.calls
  unfolding all_turns
  turns_lem [] c f = refl
  turns_lem (t ∷ ts) c f =
      let l = turn_Leaves t c f in turns_lem ts (call_turn errorf p t c).0 l.forgotten ∙ l.same

  -- On a valid client that is open, a call whose context ends while it is pending is left alone for good:
  -- whatever is read after that, it is never completed, and its error is never set.
  pub cancel-forgets :
      (ts : List Turn) (c : Client) (s : ℕ)
      → IsValid c
      → c.shutdown ≡ false
      → c.closing ≡ false
      → lookup s c.pending ≡ some p
      → lookup p (all_turns ts (cancel c p)).calls ≡ lookup p c.calls
  unfolding cancel remove_call
  cancel-forgets ts c s v running unclosed at =
      let (call, found, named, idle) = All-lookup (IsWaiting c.calls) s p c.pending v.waiting at in
      let gone : IsForgotten (record c { pending = delete s c.pending }) =
        All-zip (λ e. e.0 ≢ s) (IsWaiting c.calls) (λ e. e.1 ≢ p) (delete s c.pending)
          (λ t q ne w e.
            waiting_ne c.calls s t p q (call, found, named, idle) w (λ x. ne (sym x)) (sym e))
          (All-delete_ne s c.pending) (All-delete (IsWaiting c.calls) s c.pending v.waiting) in
      let left : cancel c p ≡ record c { pending = delete s c.pending } =
        ground (arith, found, named, running, unclosed) in
      ap (λ x. lookup p (all_turns ts x).calls) left
      ∙ turns_lem ts (record c { pending = delete s c.pending }) gone
