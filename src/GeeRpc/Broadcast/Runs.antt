-- ===== src/GeeRpc/Broadcast/Runs.antt =====
-- What holds of the goroutines of a broadcast at any time.
use go_little_project.Base.{
  ℕ, zero, suc, ◌≡◌, refl, sym, ap, subst, ◌∙◌, inl, inr, ◌⊎◌, Bool, List, [], ◌∷◌, Option, some,
  GoString, map, In, All, ok, bind-ok, ok_inj,
}
use go_little_project.GeeRpc.Client.{GoError}
use go_little_project.GeeRpc.Broadcast.{Broadcast, Worker, finished, work, step_at, interleave}
use go_little_project.GeeRpc.Broadcast.Steps.{
  IsNoted, HasSource, Extends, IsNoted-after, work-Stepped,
}

module _ (no_reply : Bool) where
  All-after :
      (b b' : Broadcast) (ws : List (GoString × Worker))
      → Extends no_reply b b'
      → All (IsNoted no_reply b) ws
      → All (IsNoted no_reply b') ws
  All-after b b' [] x h = tt
  All-after b b' ((a, w) ∷ ws) x (n, h) =
      (IsNoted-after no_reply b b' a w x n, All-after b b' ws x h)

  -- One step of the goroutines.
  record Advanced (b b' : Broadcast) (ws ws' : List (GoString × Worker)) : Type 0 where
    extends : Extends no_reply b b'
    noted : All (IsNoted no_reply b') ws'
    source :
        (s : GoString)
        → b'.e ≡ some s
        → (b.e ≡ some s) ⊎ ((a : GoString) × In (a, finished (some s)) ws')
    done : (a : GoString) (err : GoError) → In (a, finished err) ws → In (a, finished err) ws'
    names : map (λ w. w.0) ws' ≡ map (λ w. w.0) ws

  carry_all :
      (b : Broadcast) (ws : List (GoString × Worker)) (p q : Broadcast × List (GoString × Worker))
      → ok p ≡ ok q
      → Advanced b p.0 ws p.1
      → Advanced b q.0 ws q.1
  carry_all b ws p q e h = subst (λ r. Advanced b r.0 ws r.1) (ok_inj e) h

  module _ (dialed : GoString → Option ℕ × GoError) where
    step_at-Advanced :
        (ws ws' : List (GoString × Worker)) (i : ℕ) (answer : GoError) (b b' : Broadcast)
        → step_at dialed ws i answer b ≡ ok (b', ws')
        → b.reply_done ≡ no_reply
        → All (IsNoted no_reply b) ws
        → Advanced b b' ws ws'
    unfolding step_at
    step_at-Advanced [] ws' i answer b b' ran wanted h =
        carry_all b [] (b, []) (b', ws') ran
          (record {
            extends = ((λ s q. q), refl);
            noted = tt;
            source = λ s q. inl q;
            done = λ k err m. m;
            names = refl;
          })
    step_at-Advanced ((a, w) ∷ ws) ws' zero answer b b' ran wanted (n, h) =
        let ((c, w'), worked, rest) = bind-ok (work dialed a answer b w) _ (b', ws') ran in
        let st = work-Stepped no_reply dialed a answer b c w w' worked wanted n in
        carry_all b _ (c, (a, w') ∷ ws) (b', ws') rest
          (record {
            extends = st.extends;
            noted = (st.noted, All-after b c ws st.extends h);
            source = λ s q. elim (st.source s q) [
              | inl old ↦ inl old
              | inr e ↦ inr (a, inl (ap (λ x. (a, x)) (sym e)))
            ];
            done = λ k err m. elim m [
              | inl e ↦ inl (λ j. (ap (λ x. x.0) e j, sym (st.done err (sym (ap (λ x. x.1) e))) j))
              | inr m' ↦ inr m'
            ];
            names = refl;
          })
    step_at-Advanced (w ∷ ws) ws' (suc i) answer b b' ran wanted (n, h) =
        let ((c, vs), went, rest) = bind-ok (step_at dialed ws i answer b) _ (b', ws') ran in
        let ad = step_at-Advanced ws vs i answer b c went wanted h in
        carry_all b _ (c, w ∷ vs) (b', ws') rest
          (record {
            extends = ad.extends;
            noted = (IsNoted-after no_reply b c w.0 w.1 ad.extends n, ad.noted);
            source =
                λ s q. elim (ad.source s q) [ inl old ↦ inl old | inr (a, m) ↦ inr (a, inr m) ];
            done = λ k err m. elim m [ inl e ↦ inl e | inr m' ↦ inr (ad.done k err m') ];
            names = ap (λ l. w.0 ∷ l) ad.names;
          })

    -- What holds of the goroutines at any time.
    pub interleave_lem :
        (moves : List (ℕ × GoError)) (b b' : Broadcast) (ws ws' : List (GoString × Worker))
        → interleave dialed moves b ws ≡ ok (b', ws')
        → b.reply_done ≡ no_reply
        → All (IsNoted no_reply b) ws
        → HasSource no_reply b ws
        → All (IsNoted no_reply b') ws'
          × HasSource no_reply b' ws'
          × (map (λ w. w.0) ws' ≡ map (λ w. w.0) ws)
    unfolding interleave
    interleave_lem [] b b' ws ws' ran wanted h from =
        subst
          (λ r.
            All (IsNoted no_reply r.0) r.1
            × HasSource no_reply r.0 r.1
            × (map (λ w. w.0) r.1 ≡ map (λ w. w.0) ws))
          (ok_inj ran) (h, from, refl)
    interleave_lem ((i, answer) ∷ moves) b b' ws ws' ran wanted h from =
        let ((c, vs), went, rest) = bind-ok (step_at dialed ws i answer b) _ (b', ws') ran in
        let ad = step_at-Advanced ws vs i answer b c went wanted h in
        let (noted, source, names) =
          interleave_lem moves c b' vs ws' rest (ad.extends.1 ∙ wanted) ad.noted (λ s q.
            elim (ad.source s q) [
              | inl old ↦ let (a, m) = from s old in (a, ad.done a (some s) m)
              | inr new ↦ new
            ]) in
        (noted, source, names ∙ ad.names)
