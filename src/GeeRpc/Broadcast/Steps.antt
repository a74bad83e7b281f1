-- ===== src/GeeRpc/Broadcast/Steps.antt =====
-- What one step of a goroutine of a broadcast does.
use go_little_project.Base.{
  ℕ, ◌≡◌, refl, sym, ap, subst, ◌∙◌, if_true, ◌≢◌, inl, inr, ◌⊎◌, Bool, true, false, List, Option,
  none, some, GoString, In, Outcome, ok, panic, bind-ok, ok_inj, arith, Option-cases, Bool-cases,
}
use go_little_project.GeeRpc.Client.{GoError}
use go_little_project.GeeRpc.XClient.{XClient, cached}
use go_little_project.GeeRpc.Broadcast.{
  Broadcast, Worker, at_call, at_dialed, at_answer, at_record, finished, note, work,
}

module _ (no_reply : Bool) where
  -- What a goroutine that is done has left behind.
  abbrev pub IsNoted : Broadcast → GoString × Worker → Type 0
  IsNoted b (a, finished err) = (b.e ≡ none → err ≡ none) × (no_reply ≡ false → err ≢ none)
  IsNoted b (a, at_call) = Unit
  IsNoted b (a, at_dialed) = Unit
  IsNoted b (a, at_answer p) = Unit
  IsNoted b (a, at_record err) = Unit

  -- The error is that of a goroutine that is done.
  abbrev pub HasSource : Broadcast → List (GoString × Worker) → Type 0
  HasSource b ws = (s : GoString) → b.e ≡ some s → (a : GoString) × In (a, finished (some s)) ws

  -- the error is kept, and so is whether the reply is done
  abbrev pub Extends : Broadcast → Broadcast → Type 0
  Extends b b' = ((s : GoString) → b.e ≡ some s → b'.e ≡ some s) × (b'.reply_done ≡ b.reply_done)

  note_lem :
      (b b' : Broadcast) (err : GoError)
      → note b err ≡ ok b'
      → b.reply_done ≡ no_reply
      → Extends b b'
        × ((b'.e ≡ none → err ≡ none) × (no_reply ≡ false → err ≢ none))
        × ((s : GoString) → b'.e ≡ some s → (b.e ≡ some s) ⊎ (err ≡ some s))
  unfolding note
  note_lem b b' (some err) done wanted = elim (Option-cases b.e) [
    | inl e ↦
        let it : ok (record b { e = some err; cancelled = true }) ≡ ok b' = rw (note, e) at done in
        let same = ok_inj it in
        rw (sym same) (
          ((λ s q. absurd (ground (arith, e, q))), refl),
          ((λ q. absurd (ground (arith, q))), λ w q. absurd (ground (arith, q))),
          λ s q. inr q,
        )
    | inr (first, e) ↦
        let it : ok b ≡ ok b' = rw (note, e) at done in
        rw (sym (ok_inj it)) (
          ((λ s q. q), refl),
          ((λ q. absurd (ground (arith, q, e))), λ w q. absurd (ground (arith, q))),
          λ s q. inl q,
        )
  ]
  note_lem b b' none done wanted = elim (Bool-cases b.reply_done) [
    | inl e ↦
        let it : ok b ≡ ok b' = sym (if_true b.reply_done (ok b) panic e) ∙ done in
        rw (sym (ok_inj it)) (
          ((λ s q. q), refl),
          ((λ q. refl), λ w q. absurd (ground (arith, w, wanted, e))),
          λ s q. inl q,
        )
    | inr e ↦ let it : panic ≡ ok b' = rw (note, e) at done in absurd (ground (arith, it))
  ]

  still_none : (b b' : Broadcast) → Extends b b' → b'.e ≡ none → b.e ≡ none
  still_none b b' (kept, same) e = elim (Option-cases b.e) [
    | inl q ↦ q
    | inr (s, q) ↦ absurd (ground (arith, e, kept s q))
  ]

  pub IsNoted-after :
      (b b' : Broadcast) (a : GoString) (w : Worker)
      → Extends b b'
      → IsNoted b (a, w)
      → IsNoted b' (a, w)
  IsNoted-after b b' a at_call x h = tt
  IsNoted-after b b' a at_dialed x h = tt
  IsNoted-after b b' a (at_answer p) x h = tt
  IsNoted-after b b' a (at_record err) x h = tt
  IsNoted-after b b' a (finished err) x (q, r) = ((λ e. q (still_none b b' x e)), r)

  -- One step of a goroutine.
  pub record Stepped (b b' : Broadcast) (a : GoString) (w w' : Worker) : Type 0 where
    pub extends : Extends b b'
    pub noted : IsNoted b' (a, w')
    pub source : (s : GoString) → b'.e ≡ some s → (b.e ≡ some s) ⊎ (w' ≡ finished (some s))
    pub done : (err : GoError) → w ≡ finished err → w' ≡ finished err

  -- a step that changes no more than the table of clients, and does not finish
  called-Stepped :
      (b : Broadcast) (x : XClient) (a : GoString) (client : Option ℕ)
      → Stepped b
          (record b { clients = x })
          a
          at_call
          (elim client [ none ↦ at_dialed | some p ↦ at_answer p ])
  called-Stepped b x a none = record {
    extends = ((λ s q. q), refl);
    noted = tt;
    source = λ s q. inl q;
    done = λ err q. absurd (ground (arith, q));
  }
  called-Stepped b x a (some p) = record {
    extends = ((λ s q. q), refl);
    noted = tt;
    source = λ s q. inl q;
    done = λ err q. absurd (ground (arith, q));
  }

  noted-Stepped :
      (b b' : Broadcast) (a : GoString) (err : GoError)
      → note b err ≡ ok b'
      → b.reply_done ≡ no_reply
      → Stepped b b' a (at_record err) (finished err)
  noted-Stepped b b' a err done wanted =
      let (x, h, from) = note_lem b b' err done wanted in
      record {
        extends = x;
        noted = h;
        source = λ s q. elim (from s q) [ inl old ↦ inl old | inr new ↦ inr (ap finished new) ];
        done = λ e q. absurd (ground (arith, q));
      }

  carry :
      (b : Broadcast) (a : GoString) (w : Worker) (p q : Broadcast × Worker)
      → ok p ≡ ok q
      → Stepped b p.0 a w p.1
      → Stepped b q.0 a w q.1
  carry b a w p q e h = subst (λ r. Stepped b r.0 a w r.1) (ok_inj e) h

  module _ (dialed : GoString → Option ℕ × GoError) where
    pub work-Stepped :
        (a : GoString) (answer : GoError) (b b' : Broadcast) (w w' : Worker)
        → work dialed a answer b w ≡ ok (b', w')
        → b.reply_done ≡ no_reply
        → IsNoted b (a, w)
        → Stepped b b' a w w'
    unfolding work
    work-Stepped a answer b b' at_call w' ran wanted h =
        let ((x, client), found, rest) = bind-ok (cached b.clients a) _ (b', w') ran in
        carry b a at_call _ (b', w') rest (called-Stepped b x a client)
    work-Stepped a answer b b' at_dialed w' ran wanted h = elim (Option-cases (dialed a).1) [
      | inl e ↦
          let it : ◌≡◌ {A = Outcome (Broadcast × Worker)} panic (ok (b', w')) =
            rw (work, e) at ran in
          absurd (ground (arith, it))
      | inr (err, e) ↦
          let it : ◌≡◌ {A = Outcome (Broadcast × Worker)} (ok (b, at_record (some err)))
              (ok (b', w')) =
            rw (work, e) at ran in
          carry b a at_dialed (b, at_record (some err)) (b', w') it
            (record {
              extends = ((λ s q. q), refl);
              noted = tt;
              source = λ s q. inl q;
              done = λ err q. absurd (ground (arith, q));
            })
    ]
    work-Stepped a answer b b' (at_answer p) w' ran wanted h =
        carry b a (at_answer p) (b, at_record answer) (b', w') ran
          (record {
            extends = ((λ s q. q), refl);
            noted = tt;
            source = λ s q. inl q;
            done = λ err q. absurd (ground (arith, q));
          })
    work-Stepped a answer b b' (at_record err) w' ran wanted h =
        let (c, noted, rest) = bind-ok (note b err) _ (b', w') ran in
        carry b a (at_record err) (c, finished err) (b', w') rest
          (noted-Stepped b c a err noted wanted)
    work-Stepped a answer b b' (finished err) w' ran wanted h =
        carry b a (finished err) (b, finished err) (b', w') ran
          (record {
            extends = ((λ s q. q), refl);
            noted = h;
            source = λ s q. inl q;
            done = λ e q. q;
          })
