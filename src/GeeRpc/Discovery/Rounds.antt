-- ===== src/GeeRpc/Discovery/Rounds.antt =====
-- How often the round robin can be asked, and that the random choice is safe.
use go_little_project.Base.{
  ℕ, zero, suc, ◌+◌, ◌≤◌, ◌<◌, ◌≡◌, refl, ◌∙◌, ◌≢◌, ◌↔◌, inl, inr, List, [], ◌∷◌, false, GoString,
  length, ◌==◌, nat_eq, arith, get_elem?_total, get_elem?-none, get_elem?-In, Outcome, ok, panic,
  ◌>>=◌, Bool-cases, ltb, ltb→lt, In,
}
use go_little_project.GeeRpc.Discovery.{
  random_select, round_robin_select, MultiServerDiscovery, value, get,
}

length-ne : (l : List GoString) → l ≢ [] → (length l == 0) ≡ false
length-ne [] ne = absurd (ne refl)
length-ne (x ∷ xs) ne = ground arith

length_pos : (l : List GoString) → l ≢ [] → 0 < length l
length_pos [] ne = absurd (ne refl)
length_pos (x ∷ xs) ne = omega arith

-- `n` calls of `Get` with the mode `RoundRobinSelect`, one after the other
unfoldable pub rounds : (ℕ → ℕ) → ℕ → MultiServerDiscovery → Outcome MultiServerDiscovery
rounds intn zero d = ok d
rounds intn (suc n) d = do (d', _) ← get intn d round_robin_select; rounds intn n d'

round_in :
    (intn : ℕ → ℕ) (d : MultiServerDiscovery)
    → d.servers ≢ []
    → d.index < length d.servers
    → (server : GoString) × (get intn d round_robin_select
        ≡ ok (record d { index = d.index + 1 }, value server))
unfolding get
round_in intn d ne h =
    let (server, at) = get_elem?_total d.servers d.index h in
    (server, rw (length-ne d.servers ne, at) refl)

round_out :
    (intn : ℕ → ℕ) (d : MultiServerDiscovery)
    → d.servers ≢ []
    → length d.servers ≤ d.index
    → get intn d round_robin_select ≡ panic
unfolding get
round_out intn d ne h = rw (length-ne d.servers ne, get_elem?-none d.servers d.index h) refl

rounds-in :
    (intn : ℕ → ℕ) (n : ℕ) (d : MultiServerDiscovery)
    → d.servers ≢ []
    → d.index + n ≤ length d.servers
    → rounds intn n d ≡ ok (record d { index = d.index + n })
unfolding rounds
rounds-in intn zero d ne h = ground arith
rounds-in intn (suc n) d ne h =
    let (server, e) = round_in intn d ne (omega arith) in
    rw e (rounds-in intn n (record d { index = d.index + 1 }) ne (omega arith) ∙ ground arith)

rounds-out :
    (intn : ℕ → ℕ) (n : ℕ) (d : MultiServerDiscovery)
    → d.servers ≢ []
    → length d.servers < d.index + n
    → 0 < n
    → rounds intn n d ≡ panic
unfolding rounds
rounds-out intn zero d ne h pos = absurd (omega arith)
rounds-out intn (suc n) d ne h pos = elim (Bool-cases (ltb d.index (length d.servers))) [
  | inl lt ↦
      let (server, e) = round_in intn d ne (ltb→lt _ _ lt) in
      rw e (
        rounds-out intn n (record d { index = d.index + 1 }) ne (omega arith)
          (omega (arith, ltb→lt _ _ lt)))
  | inr ge ↦ rw (round_out intn d ne (ground arith)) refl
]

-- With servers, `n` calls of `Get` in the mode `RoundRobinSelect`, `n` above 0, end in a panic
-- exactly when the index that they start from and `n` add up to more than the servers: the index
-- does not wrap around.
pub rounds-panic_iff :
    (intn : ℕ → ℕ) (n : ℕ) (d : MultiServerDiscovery)
    → d.servers ≢ []
    → 0 < n
    → (rounds intn n d ≡ panic) ↔ (length d.servers < d.index + n)
rounds-panic_iff intn n d ne pos = (
  λ e. elim (Bool-cases (ltb (length d.servers) (d.index + n))) [
    | inl lt ↦ ltb→lt _ _ lt
    | inr ge ↦ absurd (ground (arith, e, rounds-in intn n d ne (ground arith)))
  ],
  λ h. rounds-out intn n d ne h pos,
)

-- The random choice returns one of the servers, if `Intn` keeps below its argument.
pub get-random :
    (intn : ℕ → ℕ) (d : MultiServerDiscovery)
    → ((n : ℕ) → 0 < n → intn n < n)
    → d.servers ≢ []
    → (server : GoString) × In server d.servers × (get intn d random_select ≡ ok (d, value server))
unfolding get
get-random intn d small ne =
    let (server, at) =
      get_elem?_total d.servers (intn (length d.servers)) (small _ (length_pos d.servers ne)) in
    (server, get_elem?-In d.servers _ server at, rw (length-ne d.servers ne, at) refl)
