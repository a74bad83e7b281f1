-- ===== src/GeeRpc/Server/Loops.antt =====
-- How the loop over the requests of a connection goes on and ends.
use go_little_project.Base.{
  true, Bool, Bool-cases, sym, ◌∙◌, subst, ◌<◌, ◌↔◌, ◌≢◌, inl, inr, ◌+◌, ℕ, zero, suc, ◌≤◌, ◌≡◌,
  refl, false, List, [], ◌∷◌, GoString, str, arith,
}
use go_little_project.GeeRpc.Client.{GoError}
use go_little_project.GeeRpc.Service.{Server, find_service, cut_last}
use go_little_project.GeeRpc.Server.{
  HeaderRead, eof, zero_header, read_request_header, ill_formed, read_request, Request, no_request,
  panics, to_handle, Event, answers, after_round, serve_codec,
}

abbrev ill_formed_error : GoString
ill_formed_error = str "rpc server: service/method request ill formed: "

read_request-eof :
    (s : Server) (body : GoError)
    → read_request s eof body ≡ ill_formed zero_header ill_formed_error
unfolding read_request read_request_header find_service cut_last
read_request-eof s body = refl

-- The answers to requests that never came.
unfoldable pub idle_answers : ℕ → List Event
idle_answers zero = []
idle_answers (suc n) = answers (record zero_header { error = ill_formed_error }) ∷ idle_answers n

-- Once the client has closed its end, so that every header that is read is the end of the input,
-- the loop never ends: it answers an empty request in every round.
pub serve_codec-eof :
    (s : Server) (input : ℕ → HeaderRead × GoError) (i rounds : ℕ)
    → ((j : ℕ) → i ≤ j → (input j).0 ≡ eof)
    → serve_codec s input i rounds ≡ (idle_answers rounds, false)
unfolding serve_codec idle_answers after_round
serve_codec-eof s input i zero closed = refl
serve_codec-eof s input i (suc rounds) closed =
    let next = serve_codec-eof s input (suc i) rounds (λ j l. closed j (omega (arith, l))) in
    rw (serve_codec, closed i (omega arith), read_request-eof s (input i).1, next) refl

-- The request with which the loop is over.
abbrev pub is_last : Request → Bool
is_last no_request = true
is_last panics = true
is_last (ill_formed h err) = false
is_last (to_handle h svc m) = false

-- One of the rounds from `i` up to `k` ends the loop.
abbrev pub Stops : Server → (ℕ → HeaderRead × GoError) → ℕ → ℕ → Type 0
Stops s input i k =
    (j : ℕ) × (i ≤ j) × (j < k) × (is_last (read_request s (input j).0 (input j).1) ≡ true)

strictly : (i j : ℕ) → i ≤ j → j ≢ i → suc i ≤ j
strictly i j l ne = ground (arith, l, ne)

after_round-goes :
    (r : Request) (rest : List Event × Bool) → is_last r ≡ false → (after_round r rest).1 ≡ rest.1
unfolding after_round
after_round-goes no_request rest ne = absurd (ground (arith, ne))
after_round-goes panics rest ne = absurd (ground (arith, ne))
after_round-goes (ill_formed h err) rest ne = refl
after_round-goes (to_handle h svc m) rest ne = refl

after_round-ends :
    (r : Request) (rest : List Event × Bool) → is_last r ≡ true → (after_round r rest).1 ≡ true
unfolding after_round
after_round-ends no_request rest e = refl
after_round-ends panics rest e = refl
after_round-ends (ill_formed h err) rest e = absurd (ground (arith, e))
after_round-ends (to_handle h svc m) rest e = absurd (ground (arith, e))

ne_of : {b : Bool} → b ≡ false → b ≢ true
ne_of f t = ground (arith, f, t)

Stops-later :
    (s : Server) (input : ℕ → HeaderRead × GoError) (i n : ℕ)
    → is_last (read_request s (input i).0 (input i).1) ≡ false
    → Stops s input (suc i) (suc i + n) ↔ Stops s input i (i + suc n)
Stops-later s input i n goes = (
  λ (j, l, u, e). (j, omega (arith, l), omega (arith, u), e),
  λ (j, l, u, e). (
    j,
    strictly i j l (λ q.
        ne_of goes (subst (λ k. is_last (read_request s (input k).0 (input k).1) ≡ true) q e)),
    omega (arith, u),
    e,
  ),
)

-- Within a number of rounds the loop is over exactly when one of these rounds reads no request, by
-- an error of the header other than the end of the input or an error of the body, or panics.
pub serve_codec-ends_iff :
    (s : Server) (input : ℕ → HeaderRead × GoError) (i rounds : ℕ)
    → ((serve_codec s input i rounds).1 ≡ true) ↔ (
        (j : ℕ) × (i ≤ j)
        × (j < i + rounds)
        × (is_last (read_request s (input j).0 (input j).1) ≡ true))
unfolding serve_codec after_round
serve_codec-ends_iff s input i zero =
    ((λ e. absurd (ground (arith, e))), λ (j, l, u, e). absurd (omega (arith, l, u)))
serve_codec-ends_iff s input i (suc rounds) =
    elim (Bool-cases (is_last (read_request s (input i).0 (input i).1))) [
      | inl e ↦ (
        (λ h. (i, omega arith, omega arith, e)),
        λ h. after_round-ends _ (serve_codec s input (suc i) rounds) e,
      )
      | inr goes ↦
          let (later, sooner) = Stops-later s input i rounds goes in
          let (to, from) = serve_codec-ends_iff s input (suc i) rounds in
          let same = after_round-goes _ (serve_codec s input (suc i) rounds) goes in
          ((λ h. later (to (sym same ∙ h))), λ h. same ∙ from (sooner h))
    ]
