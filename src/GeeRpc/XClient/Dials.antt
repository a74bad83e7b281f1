-- ===== src/GeeRpc/XClient/Dials.antt =====
-- What dialing returns and what it leaves in the table of clients.
use go_little_project.Base.{
  ℕ, ◌≡◌, refl, ◌≢◌, Bool, true, false, [], ◌∷◌, Option, none, some, GoString, lookup, insert, str,
  nat_eq, str_eq, ◌==◌, ok, panic, arith, lookup-insert_self, Bool-cases, inl, inr, join,
  split-join, ap, ◌∙◌, str_beq_iff, IsFree,
}
use go_little_project.GeeRpc.Client
use go_little_project.GeeRpc.Client.{GoError}
use go_little_project.GeeRpc.XClient.{
  XClient, cached, dial, calls, call, x_dial, connect_to, address_of, remember,
}

-- The first call to an address that has no client panics although the dialing succeeded, since
-- `dial` returns the nil client of its outer block. The client is in the table then: while it is
-- available the next call goes on with it, without dialing.
pub call-again :
    (x : XClient) (addr : GoString) (p : ℕ) (c : Client.Client) (next : Option ℕ × GoError)
    → lookup addr x.clients ≡ none
    → lookup p x.conns ≡ some c
    → Client.is_available c ≡ true
    → (y : XClient) × (dial x addr (some p, none) ≡ ok (y, none, none))
      × (call x addr (some p, none) ≡ panic)
      × (call y addr next ≡ ok (y, calls p))
unfolding call dial cached remember
call-again x addr p c next miss there free =
    let y : XClient = record x { clients = insert addr p x.clients } in
    let stored : lookup addr y.clients ≡ some p = lookup-insert_self addr p x.clients in
    (
      y,
      rw (dial, cached, miss) refl,
      rw (call, dial, cached, miss) refl,
      rw (cached, stored, there, free) refl,
    )

-- An address of the form protocol@address is dialed with these two, unless the protocol is HTTP.
x_dial-join :
    (connect : Bool → GoString → GoString → Option ℕ × GoError) (protocol addr : GoString)
    → IsFree b'@' protocol
    → IsFree b'@' addr
    → protocol ≢ str "HTTP"
    → x_dial connect (join (protocol ∷ addr ∷ []) (str "@")) ≡ connect false protocol addr
unfolding x_dial address_of
x_dial-join connect protocol addr fp fa ne =
    ap (λ parts. connect_to connect (address_of parts))
      (split-join b'@' protocol (addr ∷ []) (fp, (fa, tt)))
    ∙ elim (Bool-cases (protocol == str "HTTP")) [
      | inl same ↦ absurd (ground (arith, str_beq_iff protocol (str "HTTP")))
      | inr differs ↦ rw (address_of, differs) refl
    ]
