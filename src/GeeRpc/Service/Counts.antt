-- ===== src/GeeRpc/Service/Counts.antt =====
-- How often a method was called.
use go_little_project.Base.{
  ◌+◌, ◌%◌, ◌<◌, ◌≡◌, List, [], ◌∷◌, Outcome, ok, ◌>>=◌, arith, length, bind-ok, ok_inj, ap,
}
use go_little_project.Base.Int64.{modulus, add64}
use go_little_project.GeeRpc.Client.{GoError}
use go_little_project.GeeRpc.Service.{MethodType, call_method, num_calls_of}

-- Calls one after another, each with what the method returns.
unfoldable pub call_all : MethodType → List (Outcome GoError) → Outcome (MethodType × List GoError)
call_all m [] = ok (m, [])
call_all m (returned ∷ rest) = do
  (called, err) ← call_method m returned
  (m', errs) ← call_all called rest
  ok (m', err ∷ errs)

-- After calls that all return, the counter has grown by their number, modulo 2^64.
pub call_all-num_calls :
    (returned : List (Outcome GoError)) (m m' : MethodType) (errs : List GoError)
    → m.num_calls < modulus
    → call_all m returned ≡ ok (m', errs)
    → num_calls_of m' ≡ (num_calls_of m + length returned) % modulus
unfolding call_all call_method num_calls_of add64
call_all-num_calls [] m m' errs small e =
    let same : m.num_calls ≡ m'.num_calls =
      ap (λ (r : MethodType × List GoError). r.0.num_calls) (ok_inj e) in
    omega (arith, same, small)
call_all-num_calls (ok err ∷ rest) m m' errs small e =
    let counted : MethodType = record m { num_calls = add64 m.num_calls 1 } in
    let (r, more, last) = bind-ok (call_all counted rest) _ (m', errs) e in
    let same : r.0.num_calls ≡ m'.num_calls =
      ap (λ (q : MethodType × List GoError). q.0.num_calls) (ok_inj last) in
    let ih = call_all-num_calls rest counted r.0 r.1 (omega arith) more in
    omega (arith, same, ih, small)
call_all-num_calls (Outcome.panic ∷ rest) m m' errs small e = absurd (ground (arith, e))
call_all-num_calls (Outcome.blocked ∷ rest) m m' errs small e = absurd (ground (arith, e))
