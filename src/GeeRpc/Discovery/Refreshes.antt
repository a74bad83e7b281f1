-- ===== src/GeeRpc/Discovery/Refreshes.antt =====
-- The list that `Refresh` reads is the list that the registry wrote.
use go_little_project.Base.{
  ℕ, ◌+◌, ◌≤◌, ◌≡◌, refl, ◌≢◌, List, [], ◌∷◌, none, GoString, str, split_from, join, map, keep, not,
  ◌==◌, str_eq, str_beq_iff, arith, All, IsFree, split-join,
}
use go_little_project.GeeRpc.Discovery.{
  GeeRegistryDiscovery, servers_header, parse_servers, update, get_all, refresh,
}

-- an address that survives the header: no comma, not empty, nothing to trim
abbrev pub IsAddress : (GoString → GoString) → GoString → Type 0
IsAddress trim s = IsFree b',' s × (s ≢ []) × (trim s ≡ s)

module _ (trim : GoString → GoString) where
  kept-All :
      (ss : List GoString)
      → All (IsAddress trim) ss
      → map trim (keep (λ s. not (trim s == [])) ss) ≡ ss
  kept-All [] h = refl
  kept-All (s ∷ ss) ((free, ne, same), h) = ground (arith, kept-All ss h, str_beq_iff (trim s) [])

  IsFree-All : (ss : List GoString) → All (IsAddress trim) ss → All (IsFree b',') ss
  IsFree-All [] h = tt
  IsFree-All (s ∷ ss) ((free, ne, same), h) = (free, IsFree-All ss h)

  parse-join_cons :
      (s : GoString) (ss : List GoString)
      → All (IsAddress trim) (s ∷ ss)
      → parse_servers trim (join (s ∷ ss) (str ",")) ≡ s ∷ ss
  unfolding parse_servers
  parse-join_cons s ss h = rw (split-join b',' s ss (IsFree-All (s ∷ ss) h)) (kept-All (s ∷ ss) h)

  parse-join :
      (ss : List GoString)
      → trim [] ≡ []
      → All (IsAddress trim) ss
      → parse_servers trim (join ss (str ",")) ≡ ss
  unfolding parse_servers join split_from
  parse-join [] nothing h = ground (arith, nothing)
  parse-join (s ∷ ss) nothing h = parse-join_cons s ss h

  -- A refresh that is due, from a registry that answers with its servers joined by commas, takes
  -- over exactly these servers, where each is free of commas and of space at its ends and is not empty.
  pub refresh-servers :
      (d : GeeRegistryDiscovery) (now : ℕ) (ss : List GoString)
      → trim [] ≡ []
      → All (IsAddress trim) ss
      → d.last_update + d.timeout ≤ now
      → (get_all (refresh trim d now (servers_header (join ss (str ",")))).0.multi ≡ ss)
        × ((refresh trim d now (servers_header (join ss (str ",")))).1 ≡ none)
  unfolding refresh update get_all
  refresh-servers d now ss nothing h due = ground (arith, parse-join ss nothing h)
