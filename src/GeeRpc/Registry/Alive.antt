-- ===== src/GeeRpc/Registry/Alive.antt =====
-- What `aliveServers` returns.
use go_little_project.Base.{
  ℕ, ◌+◌, ◌<◌, ◌≡◌, ◌⊎◌, inl, inr, ◌↔◌, true, List, [], ◌∷◌, some, GoString, GoMap, lookup, insert,
  delete, ◌==◌, nat_eq, str_eq, str_beq_iff, arith, In, Bool-cases, Option-cases,
  lookup-insert_self,
}
use go_little_project.GeeRpc.Registry.{
  ServerItem, GeeRegistry, put_server, is_alive, alive_loop, insert_string, sort_strings, str_le,
  alive_servers,
}

-- an entry of the map with the address that is alive
abbrev pub LivesIn : ℕ → (GoString → ℕ) → GoString → GoMap GoString ServerItem → Type 0
LivesIn timeout now addr entries =
    (s : ServerItem) × In (addr, s) entries × (is_alive timeout (now addr) s ≡ true)

module _ (timeout : ℕ) (now : GoString → ℕ) where
  loop_sound :
      (a : GoString) (entries servers : GoMap GoString ServerItem)
      → In a (alive_loop timeout now entries servers).0
      → LivesIn timeout now a entries
  unfolding alive_loop
  loop_sound a [] servers h = elim h [ ]
  loop_sound a ((addr, s) ∷ entries) servers h = elim (Bool-cases (is_alive timeout (now addr) s)) [
    | inl e ↦
        let h' : (a ≡ addr) ⊎ In a (alive_loop timeout now entries servers).0 = rw e at h in
        elim h' [
          | inl same ↦ (s, inl (λ i. (same i, s)), rw same e)
          | inr m ↦ let (t, into, live) = loop_sound a entries servers m in (t, inr into, live)
        ]
    | inr e ↦
        let h' : In a (alive_loop timeout now entries (delete addr servers)).0 = rw e at h in
        let (t, into, live) = loop_sound a entries (delete addr servers) h' in (t, inr into, live)
  ]

  loop_complete :
      (a : GoString) (entries servers : GoMap GoString ServerItem) (s : ServerItem)
      → In (a, s) entries
      → is_alive timeout (now a) s ≡ true
      → In a (alive_loop timeout now entries servers).0
  unfolding alive_loop
  loop_complete a [] servers s m live = elim m [ ]
  loop_complete a ((addr, t) ∷ entries) servers s (inl same) live =
      let at : a ≡ addr = λ i. (same i).0 in
      let it : s ≡ t = λ i. (same i).1 in
      let e : is_alive timeout (now addr) t ≡ true = ground (arith, at, it, live) in rw e (inl at)
  loop_complete a ((addr, t) ∷ entries) servers s (inr m) live =
      elim (Bool-cases (is_alive timeout (now addr) t)) [
        | inl e ↦ rw e (inr (loop_complete a entries servers s m live))
        | inr e ↦ rw e (loop_complete a entries (delete addr servers) s m live)
      ]

In-insert_string :
    (a s : GoString) (l : List GoString) → ((a ≡ s) ⊎ In a l) ↔ In a (insert_string s l)
unfolding insert_string
In-insert_string a s [] = (λ h. h, λ h. h)
In-insert_string a s (t ∷ ts) =
    let (to, back) = In-insert_string a s ts in
    elim (Bool-cases (str_le s t)) [
      | inl e ↦ rw e (λ h. h, λ h. h)
      | inr e ↦ rw e (
        λ h. elim h [
          | inl q ↦ inr (to (inl q))
          | inr m ↦ elim m [ inl q ↦ inl q | inr m' ↦ inr (to (inr m')) ]
        ],
        λ h. elim h [
          | inl q ↦ inr (inl q)
          | inr m ↦ elim (back m) [ inl q ↦ inl q | inr m' ↦ inr (inr m') ]
        ],
      )
    ]

In-sort_strings : (a : GoString) (l : List GoString) → In a l ↔ In a (sort_strings l)
unfolding sort_strings
In-sort_strings a [] = (λ h. h, λ h. h)
In-sort_strings a (s ∷ ss) =
    let (to, back) = In-sort_strings a ss in
    let (put, take) = In-insert_string a s (sort_strings ss) in
    (
      λ h. elim h [ inl q ↦ put (inl q) | inr m ↦ put (inr (to m)) ],
      λ h. elim (take h) [ inl q ↦ inl q | inr m ↦ inr (back m) ],
    )

-- `aliveServers` returns exactly the addresses of the entries that are alive when they are visited.
alive_servers-In :
    (r : GeeRegistry) (now : GoString → ℕ) (a : GoString)
    → In a (alive_servers r now).1 ↔ LivesIn r.timeout now a r.servers
unfolding alive_servers
alive_servers-In r now a =
    let (to, back) = In-sort_strings a (alive_loop r.timeout now r.servers r.servers).0 in
    (
      λ h. loop_sound r.timeout now a r.servers r.servers (back h),
      λ h. to (loop_complete r.timeout now a r.servers r.servers h.0 h.1 h.2),
    )

lookup-In :
    (a : GoString) (s : ServerItem) (m : GoMap GoString ServerItem)
    → lookup a m ≡ some s
    → In (a, s) m
unfolding lookup
lookup-In a s [] h = absurd (ground arith)
lookup-In a s ((b, t) ∷ m) h = elim (Bool-cases (b == a)) [
  | inl e ↦ inl (ground (arith, str_beq_iff b a))
  | inr e ↦ inr (lookup-In a s m (ground arith))
]

inserted_alive :
    (r : GeeRegistry) (a : GoString) (s : ServerItem) (now : GoString → ℕ)
    → is_alive r.timeout (now a) s ≡ true
    → In a (alive_servers (record r { servers = insert a s r.servers }) now).1
inserted_alive r a s now live =
    (alive_servers-In (record r { servers = insert a s r.servers }) now a).1
      (s, lookup-In a s (insert a s r.servers) (lookup-insert_self a s r.servers), live)

-- A server that was put is returned while its time is not over, or always if the timeout is 0.
pub alive_servers-put :
    (r : GeeRegistry) (a : GoString) (t : ℕ) (now : GoString → ℕ)
    → (r.timeout ≡ 0) ⊎ (now a < t + r.timeout)
    → In a (alive_servers (put_server r a t) now).1
unfolding put_server is_alive
alive_servers-put r a t now h = elim (Option-cases (lookup a r.servers)) [
  | inl e ↦
      rw (e, put_server) (inserted_alive r a (record { addr = a; start = t }) now (ground arith))
  | inr (s, e) ↦ rw (e, put_server) (inserted_alive r a (record s { start = t }) now (ground arith))
]
