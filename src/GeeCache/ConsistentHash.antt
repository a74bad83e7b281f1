-- ===== src/GeeCache/ConsistentHash.antt =====
-- geeCache/consistenthash/consistenthash.go
pub mod Order
pub mod Owner
use go_little_project.Base.{
  ℕ, zero, suc, ◌%◌, ◌≡◌, Bool, List, [], ◌∷◌, ◌++◌, Option, none, some, GoString, GoMap, lookup,
  insert, itoa, length, get_elem?, leb, ◌==◌, nat_eq, if◌then◌else◌, Outcome, ok, demand, ◌>>=◌,
}

-- `hash` returns the uint32 as an int
pub record Ring : Type 0 where
  pub hash : GoString → ℕ
  pub replicas : ℕ
  pub keys : List ℕ
  pub hash_map : GoMap ℕ GoString

-- `New`; `crc32` is crc32.ChecksumIEEE, which stands in where no function is given
unfoldable pub new : (GoString → ℕ) → ℕ → Option (GoString → ℕ) → Ring
new crc32 replicas fn = record {
  hash = elim fn [ none ↦ crc32 | some h ↦ h ];
  replicas = replicas;
  keys = [];
  hash_map = [];
}

-- sort.Ints
unfoldable pub insert_sorted : ℕ → List ℕ → List ℕ
insert_sorted x [] = x ∷ []
insert_sorted x (y ∷ ys) = if leb x y then x ∷ y ∷ ys else y ∷ insert_sorted x ys

unfoldable pub sort_ints : List ℕ → List ℕ
sort_ints [] = []
sort_ints (x ∷ xs) = insert_sorted x (sort_ints xs)

-- sort.Search with the test `keys[i] >= hash`: the first such index, or the length
unfoldable pub search_ge : ℕ → List ℕ → ℕ
search_ge hash [] = 0
search_ge hash (x ∷ xs) = if leb hash x then 0 else suc (search_ge hash xs)

-- the hash of the `i`-th virtual node
abbrev pub replica_hash : Ring → ℕ → GoString → ℕ
replica_hash m i key = m.hash (itoa i ++ key)

-- the inner loop of `Add`, with `n` rounds to go
unfoldable pub add_replicas : ℕ → ℕ → GoString → Ring → Ring
add_replicas zero i key m = m
add_replicas (suc n) i key m = add_replicas n (suc i) key (record m {
  keys = m.keys ++ replica_hash m i key ∷ [];
  hash_map = insert (replica_hash m i key) key m.hash_map;
})

-- the outer loop of `Add`
unfoldable pub add_all : List GoString → Ring → Ring
add_all [] m = m
add_all (key ∷ keys) m = add_all keys (add_replicas m.replicas 0 key m)

unfoldable pub add : Ring → List GoString → Ring
add m keys = let m' = add_all keys m in record m' { keys = sort_ints m'.keys }

-- what a one-valued read of the map returns
abbrev pub get_or_empty : Option GoString → GoString
get_or_empty none = []
get_or_empty (some s) = s

unfoldable pub get : Ring → GoString → Outcome GoString
get m key = if length m.keys == 0 then ok [] else (do
  let idx = search_ge (m.hash key) m.keys
  owner ← demand (get_elem? m.keys (idx % length m.keys))
  ok (get_or_empty (lookup owner m.hash_map)))
