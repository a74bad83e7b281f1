-- ===== src/GeeCache/HttpPool/Picks.antt =====
-- Which peer a pool picks for a key.
use go_little_project.Base.{
  ℕ, ◌≡◌, refl, ◌≢◌, ◌⊎◌, inl, inr, List, [], ◌∷◌, ◌++◌, Option, none, some, GoString, GoMap,
  lookup, insert, str_eq, str_beq_iff, ◌==◌, if◌then◌else◌, arith, In, All, Outcome, ok,
  lookup-insert, ap, ◌∙◌, sym,
}
use go_little_project.GeeCache.ConsistentHash
use go_little_project.GeeCache.ConsistentHash.Owner.{add-In, new-IsRing}
use go_little_project.GeeCache.HttpPool.{
  HttpPool, set_peers, pick_peer, getter_of, make_getters, base_file_path, default_replicas,
}

-- The owner of a key among the addresses.
abbrev owner : (GoString → ℕ) → List GoString → GoString → Outcome GoString
owner crc32 addrs key =
    ConsistentHash.get (ConsistentHash.add (ConsistentHash.new crc32 default_replicas none) addrs)
      key

All-In : (l : List GoString) → All (λ a. a ≢ []) l → (a : GoString) → In a l → a ≢ []
All-In [] h a i = absurd i
All-In (x ∷ l) (p, h) a i = elim i [ inl e ↦ λ z. p (sym e ∙ z) | inr later ↦ All-In l h a later ]

lookup-make_getters :
    (addrs : List GoString) (m : GoMap GoString GoString) (a : GoString)
    → (In a addrs → lookup a (make_getters addrs m) ≡ some (a ++ base_file_path))
      × (lookup a m ≡ some (a ++ base_file_path)
          → lookup a (make_getters addrs m) ≡ some (a ++ base_file_path))
unfolding make_getters
lookup-make_getters [] m a = ((λ i. absurd i), λ h. h)
lookup-make_getters (b ∷ addrs) m a =
    let (new, old) = lookup-make_getters addrs (insert b (b ++ base_file_path) m) a in
    let known = lookup-insert b a (b ++ base_file_path) m in
    (
      λ i. elim i [
        | inl e ↦ old (ground (arith, known, str_beq_iff b a, e))
        | inr later ↦ new later
      ],
      λ h. old (ground (arith, known, str_beq_iff b a, h)),
    )

-- The getter of `peer`, unless it is this process.
abbrev pub getter_unless : GoString → GoString → Option (Option GoString)
getter_unless self peer = if peer == self then none else some (some (peer ++ base_file_path))

getter_of_lem :
    (crc32 : GoString → ℕ) (h : HttpPool) (addrs : List GoString) (peer : GoString)
    → In peer addrs
    → peer ≢ []
    → getter_of (set_peers crc32 h addrs) peer ≡ getter_unless h.self peer
unfolding getter_of set_peers
getter_of_lem crc32 h addrs peer into ne = ground (
  arith,
  str_beq_iff peer [],
  str_beq_iff peer h.self,
  (lookup-make_getters addrs [] peer).0 into,
  ne,
)

pick_peer_lem :
    (crc32 : GoString → ℕ) (h : HttpPool) (addrs : List GoString) (key peer : GoString)
    → In peer addrs
    → peer ≢ []
    → owner crc32 addrs key ≡ ok peer
    → pick_peer (set_peers crc32 h addrs) key ≡ ok (getter_unless h.self peer)
unfolding pick_peer set_peers
pick_peer_lem crc32 h addrs key peer into ne own =
    rw own (ap (λ g. ok g) (getter_of_lem crc32 h addrs peer into ne))

owner_cases :
    (crc32 : GoString → ℕ) (addrs : List GoString) (key : GoString)
    → (owner crc32 addrs key ≡ ok [])
      ⊎ ((s : GoString) × In s addrs × (owner crc32 addrs key ≡ ok s))
unfolding ConsistentHash.new
owner_cases crc32 addrs key =
    add-In (ConsistentHash.new crc32 default_replicas none) addrs key
      (new-IsRing crc32 default_replicas none) refl

-- Processes that are set to one list of addresses, in the same order and none of them empty, agree
-- on each key: either no pool picks a peer, or there is one address whose own pool picks none, while every other pool
-- picks the getter of that address, which is never nil.
pub pick_peer-agrees :
    (crc32 : GoString → ℕ) (addrs : List GoString) (key : GoString)
    → All (λ a. a ≢ []) addrs
    → ((h : HttpPool) → pick_peer (set_peers crc32 h addrs) key ≡ ok none)
      ⊎ ((peer : GoString) × In peer addrs
          × ((h : HttpPool)
              → pick_peer (set_peers crc32 h addrs) key ≡ ok (getter_unless h.self peer)))
unfolding pick_peer set_peers getter_of
pick_peer-agrees crc32 addrs key full = elim (owner_cases crc32 addrs key) [
  | inl nobody ↦ inl (λ h. rw nobody refl)
  | inr (peer, into, own) ↦
      inr (
        peer,
        into,
        λ h. pick_peer_lem crc32 h addrs key peer into (All-In addrs full peer into) own,
      )
]
