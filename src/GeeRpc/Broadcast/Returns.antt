-- ===== src/GeeRpc/Broadcast/Returns.antt =====
-- A broadcast comes to its end.
use go_little_project.Base.{
  ℕ, zero, suc, ◌-◌, ◌≤◌, ◌<◌, ◌≡◌, refl, ap, subst, inl, inr, Bool, true, false, List, [], ◌∷◌,
  Option, none, some, GoString, length, Outcome, ok, panic, bind-ok, ok_inj, arith, Option-cases,
  Bool-cases, if◌then◌else◌, nat_eq, demand, lookup, ◌⊎◌, ◌∙◌, ltb, ltb→lt, ◌≢◌, blocked, ◌>>=◌,
  str_eq,
}
use go_little_project.GeeRpc.Client.{GoError, is_available}
use go_little_project.GeeRpc.XClient.{XClient, cached}
use go_little_project.GeeRpc.Discovery.{value}
use go_little_project.GeeRpc.Broadcast.{
  Broadcast, Worker, at_call, at_dialed, at_answer, at_record, finished, begin_broadcast,
  begin_workers, note, work, step_at, interleave, all_finished, broad_cast,
}

-- how many steps a goroutine still has at most
abbrev rank : Worker → ℕ
rank at_call = 3
rank at_dialed = 2
rank (at_answer p) = 2
rank (at_record err) = 1
rank (finished err) = 0

abbrev rank_at : List (GoString × Worker) → ℕ → ℕ
rank_at [] i = 0
rank_at ((a, w) ∷ ws) zero = rank w
rank_at ((a, w) ∷ ws) (suc i) = rank_at ws i

abbrev is_same : ℕ → ℕ → Bool
is_same zero zero = true
is_same (suc i) (suc k) = is_same i k
is_same _ _ = false

-- How many moves the goroutine `k` is given.
unfoldable pub turns : ℕ → List (ℕ × GoError) → ℕ
turns k [] = 0
turns k ((i, answer) ∷ moves) = let rest = turns k moves in if is_same i k then suc rest else rest

abbrev one_if : Bool → ℕ
one_if true = 1
one_if false = 0

rank_called :
    (client : Option ℕ) → rank (elim client [ none ↦ at_dialed | some p ↦ at_answer p ]) ≤ 2
rank_called none = omega arith
rank_called (some p) = omega arith

carry_rank : (n : ℕ) (p q : Broadcast × Worker) → ok p ≡ ok q → rank p.1 ≤ n → rank q.1 ≤ n
carry_rank n p q e h = subst (λ r. rank r.1 ≤ n) (ok_inj e) h

module _ (dialed : GoString → Option ℕ × GoError) where
  work-rank :
      (a : GoString) (answer : GoError) (b : Broadcast) (w : Worker) (r : Broadcast × Worker)
      → work dialed a answer b w ≡ ok r
      → rank r.1 ≤ rank w - 1
  unfolding work
  work-rank a answer b at_call r ran =
      let ((x, client), found, rest) = bind-ok (cached b.clients a) _ r ran in
      carry_rank 2 _ r rest (rank_called client)
  work-rank a answer b at_dialed r ran = elim (Option-cases (dialed a).1) [
    | inl e ↦
        let it : ◌≡◌ {A = Outcome (Broadcast × Worker)} panic (ok r) = rw (work, e) at ran in
        absurd (ground (arith, it))
    | inr (err, e) ↦
        let it : ◌≡◌ {A = Outcome (Broadcast × Worker)} (ok (b, at_record (some err))) (ok r) =
          rw (work, e) at ran in
        carry_rank 1 (b, at_record (some err)) r it (omega arith)
  ]
  work-rank a answer b (at_answer p) r ran = carry_rank 1 (b, at_record answer) r ran (omega arith)
  work-rank a answer b (at_record err) r ran =
      let (c, noted, rest) = bind-ok (note b err) _ r ran in
      carry_rank 0 (c, finished err) r rest (omega arith)
  work-rank a answer b (finished err) r ran = carry_rank 0 (b, finished err) r ran (omega arith)

  carry_ranks :
      (k n : ℕ) (p q : Broadcast × List (GoString × Worker))
      → ok p ≡ ok q
      → rank_at p.1 k ≤ n
      → rank_at q.1 k ≤ n
  carry_ranks k n p q e h = subst (λ r. rank_at r.1 k ≤ n) (ok_inj e) h

  step_at-rank :
      (ws : List (GoString × Worker)) (i k : ℕ) (answer : GoError) (b : Broadcast)
      (r : Broadcast × List (GoString × Worker))
      → step_at dialed ws i answer b ≡ ok r
      → rank_at r.1 k ≤ rank_at ws k - one_if (is_same i k)
  unfolding step_at
  step_at-rank [] i k answer b r ran =
      carry_ranks k (0 - one_if (is_same i k)) (b, []) r ran (omega arith)
  step_at-rank ((a, w) ∷ ws) zero zero answer b r ran =
      let ((c, w'), worked, rest) = bind-ok (work dialed a answer b w) _ r ran in
      carry_ranks 0 (rank w - 1) (c, (a, w') ∷ ws) r rest (work-rank a answer b w (c, w') worked)
  step_at-rank ((a, w) ∷ ws) zero (suc k) answer b r ran =
      let ((c, w'), worked, rest) = bind-ok (work dialed a answer b w) _ r ran in
      carry_ranks (suc k) (rank_at ws k - 0) (c, (a, w') ∷ ws) r rest (omega arith)
  step_at-rank ((a, w) ∷ ws) (suc i) zero answer b r ran =
      let ((c, vs), went, rest) = bind-ok (step_at dialed ws i answer b) _ r ran in
      carry_ranks 0 (rank w - 0) (c, (a, w) ∷ vs) r rest (omega arith)
  step_at-rank ((a, w) ∷ ws) (suc i) (suc k) answer b r ran =
      let ((c, vs), went, rest) = bind-ok (step_at dialed ws i answer b) _ r ran in
      carry_ranks (suc k) (rank_at ws k - one_if (is_same i k)) (c, (a, w) ∷ vs) r rest
        (step_at-rank ws i k answer b (c, vs) went)

  interleave-rank :
      (moves : List (ℕ × GoError)) (k : ℕ) (b : Broadcast) (ws : List (GoString × Worker))
      (r : Broadcast × List (GoString × Worker))
      → interleave dialed moves b ws ≡ ok r
      → rank_at r.1 k ≤ rank_at ws k - turns k moves
  unfolding interleave turns
  interleave-rank [] k b ws r ran = carry_ranks k (rank_at ws k - 0) (b, ws) r ran (omega arith)
  interleave-rank ((i, answer) ∷ moves) k b ws r ran =
      let ((c, vs), went, rest) = bind-ok (step_at dialed ws i answer b) _ r ran in
      let one = step_at-rank ws i k answer b (c, vs) went in
      let more = interleave-rank moves k c vs r rest in
      elim (Bool-cases (is_same i k)) [
        | inl e ↦
            let one' : rank_at vs k ≤ rank_at ws k - 1 = rw e at one in
            rw (turns, e) (omega (arith, one', more))
        | inr e ↦
            let one' : rank_at vs k ≤ rank_at ws k - 0 = rw e at one in
            rw (turns, e) (omega (arith, one', more))
      ]

rank_at-begin : (servers : List GoString) (k : ℕ) → rank_at (begin_workers servers) k ≤ 3
unfolding begin_workers
rank_at-begin [] k = omega arith
rank_at-begin (a ∷ more) zero = omega arith
rank_at-begin (a ∷ more) (suc k) = rank_at-begin more k

rank_at-beyond :
    (servers : List GoString) (k : ℕ) → length servers ≤ k → rank_at (begin_workers servers) k ≡ 0
unfolding begin_workers
rank_at-beyond [] k h = refl
rank_at-beyond (a ∷ more) zero h = absurd (omega (arith, h))
rank_at-beyond (a ∷ more) (suc k) h = rank_at-beyond more k (omega (arith, h))

ended : (ws : List (GoString × Worker)) → ((k : ℕ) → rank_at ws k ≡ 0) → all_finished ws ≡ true
unfolding all_finished
ended [] h = refl
ended ((a, finished err) ∷ ws) h = ended ws λ k. h (suc k)
ended ((a, at_call) ∷ ws) h = absurd (omega (arith, h 0))
ended ((a, at_dialed) ∷ ws) h = absurd (omega (arith, h 0))
ended ((a, at_answer p) ∷ ws) h = absurd (omega (arith, h 0))
ended ((a, at_record err) ∷ ws) h = absurd (omega (arith, h 0))

-- What a goroutine does always ends: it never waits.
bind_free :
    {A B : Type 0} (m : Outcome A) (f : A → Outcome B)
    → m ≢ blocked
    → ((a : A) → f a ≢ blocked)
    → (m >>= f) ≢ blocked
bind_free (ok a) f h k = k a
bind_free panic f h k = λ e. ground (arith, e)
bind_free blocked f h k = λ e. h refl

ok_free : {A : Type 0} (a : A) → ok a ≢ blocked
ok_free a e = ground (arith, e)

note_free : (b : Broadcast) (err : GoError) → note b err ≢ blocked
unfolding note
note_free b (some err) = elim (Option-cases b.e) [
  | inl e ↦ rw (note, e) (ok_free _)
  | inr (first, e) ↦ rw (note, e) (ok_free _)
]
note_free b none = elim (Bool-cases b.reply_done) [
  | inl e ↦ rw (note, e) (ok_free _)
  | inr e ↦ rw (note, e) (λ q. ground (arith, q))
]

demand_free : {A : Type 0} (o : Option A) → demand o ≢ blocked
demand_free none e = ground (arith, e)
demand_free (some a) e = ground (arith, e)

if_free :
    {A : Type 0} (b : Bool) (m n : Outcome A)
    → m ≢ blocked
    → n ≢ blocked
    → (if b then m else n) ≢ blocked
if_free b m n h k = elim (Bool-cases b) [ inl e ↦ rw e h | inr e ↦ rw e k ]

cached_free : (x : XClient) (a : GoString) → cached x a ≢ blocked
unfolding cached
cached_free x a = elim (Option-cases (lookup a x.clients)) [
  | inl e ↦ rw (cached, e) (ok_free _)
  | inr (p, e) ↦
      rw (cached, e)
        (bind_free (demand (lookup p x.conns)) _ (demand_free (lookup p x.conns))
          λ c. if_free (is_available c) _ _ (ok_free _) (ok_free _))
]

module _ (dialed : GoString → Option ℕ × GoError) where
  work_free :
      (a : GoString) (answer : GoError) (b : Broadcast) (w : Worker)
      → work dialed a answer b w ≢ blocked
  unfolding work
  work_free a answer b at_call =
      bind_free (cached b.clients a) _ (cached_free b.clients a) λ r. ok_free _
  work_free a answer b at_dialed = elim (Option-cases (dialed a).1) [
    | inl e ↦ rw (work, e) (λ q. ground (arith, q))
    | inr (err, e) ↦ rw (work, e) (ok_free _)
  ]
  work_free a answer b (at_answer p) = ok_free _
  work_free a answer b (at_record err) = bind_free (note b err) _ (note_free b err) λ c. ok_free _
  work_free a answer b (finished err) = ok_free _

  step_at_free :
      (ws : List (GoString × Worker)) (i : ℕ) (answer : GoError) (b : Broadcast)
      → step_at dialed ws i answer b ≢ blocked
  unfolding step_at
  step_at_free [] i answer b = ok_free _
  step_at_free ((a, w) ∷ ws) zero answer b =
      bind_free (work dialed a answer b w) _ (work_free a answer b w) λ r. ok_free _
  step_at_free (w ∷ ws) (suc i) answer b =
      bind_free (step_at dialed ws i answer b) _ (step_at_free ws i answer b) λ r. ok_free _

  interleave_free :
      (moves : List (ℕ × GoError)) (b : Broadcast) (ws : List (GoString × Worker))
      → interleave dialed moves b ws ≢ blocked
  unfolding interleave
  interleave_free [] b ws = ok_free _
  interleave_free ((i, answer) ∷ moves) b ws =
      bind_free (step_at dialed ws i answer b) _ (step_at_free ws i answer b)
        λ r. interleave_free moves r.0 r.1

returned-some :
    (dialed : GoString → Option ℕ × GoError) (x y : XClient) (no_reply : Bool)
    (servers : List GoString) (moves : List (ℕ × GoError)) (returned : Option GoError)
    → ((k : ℕ) → k < length servers → 3 ≤ turns k moves)
    → broad_cast dialed x no_reply (value servers) moves ≡ ok (y, returned)
    → (e : GoError) × (returned ≡ some e)
unfolding broad_cast
returned-some dialed x y no_reply servers moves returned fair sent =
    let start = begin_broadcast x no_reply in
    let ((b, ws), ran, rest) =
      bind-ok (interleave dialed moves start (begin_workers servers)) _ (y, returned) sent in
    let end : all_finished ws ≡ true = ended ws λ k.
      let left = interleave-rank dialed moves k start (begin_workers servers) (b, ws) ran in
      elim (Bool-cases (ltb k (length servers))) [
        | inl l ↦ omega (arith, left, rank_at-begin servers k, fair k (ltb→lt k (length servers) l))
        | inr l ↦
            let beyond : length servers ≤ k = ground (arith, l) in
            omega (arith, left, rank_at-beyond servers k beyond)
      ] in
    let told : (if all_finished ws then some b.e else none) ≡ returned =
      ap (λ r. r.1) (ok_inj rest) in
    (b.e, ground (arith, end, told))

broad_cast_free :
    (dialed : GoString → Option ℕ × GoError) (x : XClient) (no_reply : Bool)
    (servers : List GoString) (moves : List (ℕ × GoError))
    → broad_cast dialed x no_reply (value servers) moves ≢ blocked
unfolding broad_cast
broad_cast_free dialed x no_reply servers moves =
    bind_free (interleave dialed moves (begin_broadcast x no_reply) (begin_workers servers)) _
      (interleave_free dialed moves (begin_broadcast x no_reply) (begin_workers servers))
      λ r. ok_free _

outcome_cases :
    (m : Outcome (XClient × Option GoError))
    → m ≢ blocked
    → (m ≡ panic) ⊎ ((r : XClient × Option GoError) × (m ≡ ok r))
outcome_cases (ok r) h = inr (r, refl)
outcome_cases panic h = inl refl
outcome_cases blocked h = absurd (h refl)

-- Once every goroutine has been given three moves, in whatever order, BroadCast has returned with
-- an error or nil, or one of the goroutines has panicked: neither a goroutine nor the caller waits.
pub broad_cast-returns :
    (dialed : GoString → Option ℕ × GoError) (x : XClient) (no_reply : Bool)
    (servers : List GoString) (moves : List (ℕ × GoError))
    → ((k : ℕ) → k < length servers → 3 ≤ turns k moves)
    → (broad_cast dialed x no_reply (value servers) moves ≡ panic)
      ⊎ ((y : XClient) × (e : GoError) × (broad_cast dialed x no_reply (value servers) moves
            ≡ ok (y, some e)))
broad_cast-returns dialed x no_reply servers moves fair =
    elim (outcome_cases _ (broad_cast_free dialed x no_reply servers moves)) [
      | inl e ↦ inl e
      | inr ((y, returned), sent) ↦
          let (e, told) = returned-some dialed x y no_reply servers moves returned fair sent in
          inr (y, e, sent ∙ ap (λ r. ok (y, r)) told)
    ]
