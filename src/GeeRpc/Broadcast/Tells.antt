-- ===== src/GeeRpc/Broadcast/Tells.antt =====
-- What a broadcast tells its caller.
use go_little_project.Base.{
  ℕ, ◌≡◌, refl, ap, subst, ◌∙◌, if◌then◌else◌, ◌↔◌, inl, inr, Bool, true, false, List, [], ◌∷◌,
  Option, none, some, GoString, map, In, All, ok, bind-ok, ok_inj, arith, Option-cases, Bool-cases,
}
use go_little_project.GeeRpc.Client.{GoError}
use go_little_project.GeeRpc.XClient.{XClient}
use go_little_project.GeeRpc.Discovery.{value}
use go_little_project.GeeRpc.Broadcast.{
  Broadcast, Worker, at_call, at_dialed, at_answer, at_record, finished, begin_broadcast,
  begin_workers, interleave, all_finished, broad_cast,
}
use go_little_project.GeeRpc.Broadcast.Steps.{IsNoted}
use go_little_project.GeeRpc.Broadcast.Runs.{interleave_lem}

starts-IsNoted :
    (no_reply : Bool) (b : Broadcast) (servers : List GoString)
    → All (IsNoted no_reply b) (begin_workers servers)
unfolding begin_workers
starts-IsNoted no_reply b [] = tt
starts-IsNoted no_reply b (a ∷ rest) = (tt, starts-IsNoted no_reply b rest)

names_begun : (servers : List GoString) → map (λ w. w.0) (begin_workers servers) ≡ servers
unfolding begin_workers
names_begun [] = refl
names_begun (a ∷ rest) = ap (λ l. a ∷ l) (names_begun rest)

-- Every call has ended without an error.
abbrev pub AllSucceeded : List (GoString × Worker) → Type 0
AllSucceeded ws = All (λ w. w.1 ≡ finished none) ws

succeeded :
    (no_reply : Bool) (b : Broadcast) (ws : List (GoString × Worker))
    → all_finished ws ≡ true
    → b.e ≡ none
    → All (IsNoted no_reply b) ws
    → AllSucceeded ws
unfolding all_finished
succeeded no_reply b [] end quiet h = tt
succeeded no_reply b ((a, finished err) ∷ ws) end quiet ((q, r), h) =
    (ap finished (q quiet), succeeded no_reply b ws end quiet h)
succeeded no_reply b ((a, at_call) ∷ ws) end quiet h = absurd (ground (arith, end))
succeeded no_reply b ((a, at_dialed) ∷ ws) end quiet h = absurd (ground (arith, end))
succeeded no_reply b ((a, at_answer p) ∷ ws) end quiet h = absurd (ground (arith, end))
succeeded no_reply b ((a, at_record err) ∷ ws) end quiet h = absurd (ground (arith, end))

no_failure :
    (a : GoString) (s : GoString) (ws : List (GoString × Worker))
    → AllSucceeded ws
    → ¬ In (a, finished (some s)) ws
no_failure a s [] h m = m
no_failure a s (w ∷ ws) (q, h) (inl e) = ground (arith, q, ap (λ x. x.1) e)
no_failure a s (w ∷ ws) (q, h) (inr m) = no_failure a s ws h m

no_success :
    (no_reply : Bool) (b : Broadcast) (ws : List (GoString × Worker))
    → no_reply ≡ false
    → AllSucceeded ws
    → All (IsNoted no_reply b) ws
    → ws ≡ []
no_success no_reply b [] wanted all h = refl
no_success no_reply b ((a, finished err) ∷ ws) wanted (q, all) ((_, r), h) =
    absurd (r wanted (cc q))
no_success no_reply b ((a, at_call) ∷ ws) wanted (q, all) h = absurd (ground (arith, q))
no_success no_reply b ((a, at_dialed) ∷ ws) wanted (q, all) h = absurd (ground (arith, q))
no_success no_reply b ((a, at_answer p) ∷ ws) wanted (q, all) h = absurd (ground (arith, q))
no_success no_reply b ((a, at_record err) ∷ ws) wanted (q, all) h = absurd (ground (arith, q))

-- What the broadcast returns, and how its goroutines have ended.
pub record IsTold (no_reply : Bool) (e : GoError) (ws : List (GoString × Worker)) : Type 0 where
  pub none_iff : (e ≡ none) ↔ AllSucceeded ws
  pub source : (s : GoString) → e ≡ some s → (a : GoString) × In (a, finished (some s)) ws
  pub failed : no_reply ≡ false → e ≡ none → ws ≡ []

interleave-IsTold :
    (dialed : GoString → Option ℕ × GoError) (x : XClient) (no_reply : Bool)
    (servers : List GoString) (moves : List (ℕ × GoError)) (b : Broadcast)
    (ws : List (GoString × Worker))
    → interleave dialed moves (begin_broadcast x no_reply) (begin_workers servers) ≡ ok (b, ws)
    → all_finished ws ≡ true
    → IsTold no_reply b.e ws × (map (λ w. w.0) ws ≡ servers)
unfolding begin_broadcast
interleave-IsTold dialed x no_reply servers moves b ws ran end =
    let start = begin_broadcast x no_reply in
    let (noted, source, names) =
      interleave_lem no_reply dialed moves start b (begin_workers servers) ws ran refl
        (starts-IsNoted no_reply start servers) (λ s q. absurd (ground (arith, q))) in
    (
      record {
        none_iff = (
          λ q. succeeded no_reply b ws end q noted,
          λ all. elim (Option-cases b.e) [
            | inl q ↦ q
            | inr (s, q) ↦ let (a, m) = source s q in absurd (no_failure a s ws all m)
          ],
        );
        source = source;
        failed =
            λ wanted q. no_success no_reply b ws wanted (succeeded no_reply b ws end q noted) noted;
      },
      names ∙ names_begun servers,
    )

-- What BroadCast returns to its caller, in whatever order its goroutines ran, one for each server:
-- the error is nil exactly if every call succeeded, and otherwise it is the error of one of the
-- calls. If the caller wants a reply, the error is nil only if there are no servers.
pub broad_cast-IsTold :
    (dialed : GoString → Option ℕ × GoError) (x y : XClient) (no_reply : Bool)
    (servers : List GoString) (moves : List (ℕ × GoError)) (e : GoError)
    → broad_cast dialed x no_reply (value servers) moves ≡ ok (y, some e)
    → (b : Broadcast) × (ws : List (GoString × Worker)) × (interleave dialed moves
          (begin_broadcast x no_reply)
          (begin_workers servers)
        ≡ ok (b, ws))
      × (map (λ w. w.0) ws ≡ servers)
      × IsTold no_reply e ws
unfolding broad_cast
broad_cast-IsTold dialed x y no_reply servers moves e sent =
    let ((b, ws), ran, rest) =
      bind-ok (interleave dialed moves (begin_broadcast x no_reply) (begin_workers servers)) _
        (y, some e) sent in
    let returned : (if all_finished ws then some b.e else none) ≡ some e =
      ap (λ r. r.1) (ok_inj rest) in
    elim (Bool-cases (all_finished ws)) [
      | inl end ↦
          let (told, names) = interleave-IsTold dialed x no_reply servers moves b ws ran end in
          let same : b.e ≡ e = ground (arith, end, returned) in
          (b, ws, ran, names, subst (λ q. IsTold no_reply q ws) same told)
      | inr waits ↦ absurd (ground (arith, waits, returned))
    ]
