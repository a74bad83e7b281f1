-- ===== src/GeeRpc/Client/Calls.antt =====
-- geeRpc/client.go: the synchronous `Call`, which waits for its call or for its context, while the
-- goroutine of `receive` reads responses.
use go_little_project.Base.{
  ℕ, ◌≡◌, refl, ap, ◌∙◌, ◌≢◌, false, inl, inr, List, [], ◌∷◌, ◌++◌, Option, none, some, GoString,
  lookup, str, ◌==◌, nat_eq, str_eq, if◌then◌else◌, All, Bool-cases, map,
}
use go_little_project.GeeRpc.Client.{
  Call, Client, GoError, Response, go, cancel, receive_one, deliver, remove_call, terminate_calls,
  read_error,
}
use go_little_project.GeeRpc.Client.Store.{All-lookup, IsWaiting}
use go_little_project.GeeRpc.Client.Keeps.{
  IsValid, remove_cases, shut, missing, taken, receive_one-IsValid,
}
use go_little_project.GeeRpc.Client.Ends.{
  EndsWith, finish_other, completed_EndsWith, ended_apart, still_pending, body_error,
}

-- what happens next: a response is read, the connection ends, or one branch of the `select` is taken
pub data Turn : Type 0 where
  arrives : Response → Turn
  connection_ends : Turn
  takes_done : Turn
  context_ends : GoString → Turn

-- what the channel `Done` holds
unfoldable pub done_error : Option Call → Option GoError
done_error none = none
done_error (some call) = if call.done == 0 then none else some call.error

-- an error of the body ends the loop of `receive`
abbrev pub after_read : Client × GoError → Client
after_read (c, none) = c
after_read (c, some e) = terminate_calls c (some e)

-- the `select` is over once it has a result
abbrev pub returned_or : Client × Option GoError → Client × Option GoError → Client × Option GoError
returned_or (c, some err) rest = (c, some err)
returned_or (c, none) rest = rest

module _ (errorf : GoString → GoString) where
  -- one round of `receive`, which ends the connection if a body cannot be read
  unfoldable pub read_turn : Client → Response → Client
  read_turn c r = if c.shutdown then c else after_read (receive_one errorf c r)

  -- the client after a turn, and what `Call` returns, if it does
  unfoldable pub call_turn : ℕ → Turn → Client → Client × Option GoError
  call_turn p (arrives r) c = (read_turn c r, none)
  call_turn p connection_ends c = (if c.shutdown then c else terminate_calls c none, none)
  call_turn p takes_done c = (c, done_error (lookup p c.calls))
  call_turn p (context_ends err) c =
      (cancel c p, some (some (str "rpc client: call failed: " ++ err)))

  unfoldable pub wait_for : ℕ → List Turn → Client → Client × Option GoError
  wait_for p [] c = (c, none)
  wait_for p (t ∷ ts) c = let now = call_turn p t c in returned_or now (wait_for p ts now.0)

  -- `Call`
  unfoldable pub call_sync : Client → ℕ → GoString → GoError → List Turn → Client × Option GoError
  call_sync c p service_method written turns = wait_for p turns (go c p service_method written)

  -- the error that a response leaves in its call
  abbrev pub response_error : Response → GoError
  response_error r =
      if r.header.error == [] then read_error r.body else some (errorf r.header.error)

  IsOpen : Client → Type 0
  IsOpen c = (c.shutdown ≡ false) × (c.closing ≡ false)

  receive_one-IsOpen : (c : Client) (r : Response) → IsOpen c → IsOpen (receive_one errorf c r).0
  unfolding IsOpen receive_one deliver
  receive_one-IsOpen c r o = elim (remove_cases c r.header.seq) [
    | shut e ↦ rw e o
    | missing absent e ↦ rw e o
    | taken p e at ↦ elim (Bool-cases (r.header.error == [])) [
      | inl fine ↦ rw (at, fine) o
      | inr bad ↦ rw (at, bad) o
    ]
  ]

  -- the response to a pending call completes it
  receive_one-EndsWith :
      (c : Client) (r : Response) (p : ℕ)
      → IsValid c
      → IsOpen c
      → lookup r.header.seq c.pending ≡ some p
      → EndsWith (receive_one errorf c r).0.calls p (response_error r)
  unfolding receive_one deliver IsOpen remove_call
  receive_one-EndsWith c r p v (running, unclosed) at =
      let w = All-lookup (IsWaiting c.calls) r.header.seq p c.pending v.waiting at in
      elim (Bool-cases (r.header.error == [])) [
        | inl fine ↦
            rw (running, unclosed, at, fine)
              (completed_EndsWith (read_error r.body) r.header.seq p c.calls w)
        | inr bad ↦
            rw (running, unclosed, at, bad)
              (completed_EndsWith (some (errorf r.header.error)) r.header.seq p c.calls w)
      ]

  after_read-EndsWith :
      (c : Client) (failed : GoError) (p : ℕ) (err : GoError)
      → IsValid c
      → EndsWith c.calls p err
      → EndsWith (after_read (c, failed)).calls p err
  unfolding terminate_calls
  after_read-EndsWith c none p err v ends = ends
  after_read-EndsWith c (some e) p err v (call, found, done, error) = (
    call,
    finish_other (some e) p c.pending c.calls (ended_apart c p call v found done) ∙ found,
    done,
    error,
  )

  read_open :
      (c : Client) (r : Response)
      → c.shutdown ≡ false
      → read_turn c r ≡ after_read (receive_one errorf c r)
  unfolding read_turn
  read_open c r running = ap (λ b. if b then c else after_read (receive_one errorf c r)) running

  read_turn-EndsWith :
      (c : Client) (r : Response) (p : ℕ)
      → IsValid c
      → IsOpen c
      → lookup r.header.seq c.pending ≡ some p
      → EndsWith (read_turn c r).calls p (response_error r)
  unfolding IsOpen
  read_turn-EndsWith c r p v o at = rw (read_open c r o.0) (
      after_read-EndsWith (receive_one errorf c r).0 (receive_one errorf c r).1 p (response_error r)
        (receive_one-IsValid errorf c r v) (receive_one-EndsWith c r p v o at))

  taken_error : (call : Call) → call.done ≡ 1 → done_error (some call) ≡ some call.error
  unfolding done_error
  taken_error call done = rw done refl

  -- A call pends on a valid client that is open. Responses with other numbers arrive, whose bodies can
  -- be read, then one with the call's number: the caller, when it then takes from the channel, gets
  -- the error of that response.
  pub wait_for-response :
      (others : List Response) (c : Client) (r : Response) (p : ℕ) (rest : List Turn)
      → IsValid c
      → c.shutdown ≡ false
      → c.closing ≡ false
      → lookup r.header.seq c.pending ≡ some p
      → All (λ q. (q.header.seq ≢ r.header.seq) × (q.body ≡ none)) others
      → (wait_for p (map arrives others ++ arrives r ∷ takes_done ∷ rest) c).1
        ≡ some (response_error r)
  unfolding wait_for call_turn done_error IsOpen
  wait_for-response [] c r p rest v running unclosed at a =
      let (call, found, done, error) = read_turn-EndsWith c r p v (running, unclosed) at in
      ap (λ o. (returned_or (read_turn c r, o) (wait_for p rest (read_turn c r))).1)
        (ap done_error found ∙ taken_error call done)
      ∙ ap (λ e. some e) error
  wait_for-response (q ∷ others) c r p rest v running unclosed at ((ne, good), a) =
      let quiet : read_turn c q ≡ (receive_one errorf c q).0 =
        read_open c q running
        ∙ ap (λ f. after_read ((receive_one errorf c q).0, f)) (body_error errorf c q ∙ good) in
      let (still, open_still) = receive_one-IsOpen c q (running, unclosed) in
      ap (λ x. (wait_for p (map arrives others ++ arrives r ∷ takes_done ∷ rest) x).1) quiet
      ∙ wait_for-response others (receive_one errorf c q).0 r p rest
          (receive_one-IsValid errorf c q v) still open_still
          (still_pending errorf c q r.header.seq p ne at) a
