-- ===== src/GeeCache/Group.antt =====
-- geeCache/geecache.go, cache.go and byteview.go: the group of a name, its main cache and the
-- loading of a missing key by one goroutine. Bytes are never changed in place, so a clone is the
-- value itself.
pub mod Reads
use go_little_project.Base.{
  ℕ, Bool, true, false, List, [], ◌∷◌, Option, none, some, GoString, GoMap, lookup, insert, delete,
  str, str_eq, length, ◌==◌, if◌then◌else◌, Outcome, ok, panic, blocked, ◌>>=◌,
}
use go_little_project.GeeCache.Lru

abbrev pub ByteView : Type 0
ByteView = GoString

abbrev pub len : ByteView → ℕ
len v = length v

unfoldable pub clone_bytes : GoString → GoString
clone_bytes [] = []
clone_bytes (c ∷ b) = c ∷ clone_bytes b

abbrev pub byte_slice : ByteView → GoString
byte_slice v = clone_bytes v

-- `Cache` of cache.go: the LRU cache is nil until the first `Add`
pub record MainCache : Type 0 where
  pub lru : Option (Lru.Cache ByteView)
  pub cache_bytes : ℕ

-- the cache that is there, or a new one
unfoldable pub lru_of : MainCache → Lru.Cache ByteView
lru_of c = elim c.lru [ none ↦ Lru.new c.cache_bytes false | some l ↦ l ]

unfoldable pub add_main : MainCache → GoString → ByteView → Outcome MainCache
add_main c key value = do
  (l, calls) ← Lru.add len (lru_of c) key value
  ok (record c { lru = some l })

unfoldable pub get_main : MainCache → GoString → Outcome (MainCache × Option ByteView)
get_main c key = elim c.lru [
  | none ↦ ok (c, none)
  | some l ↦ do (l', found) ← Lru.get l key; ok (record c { lru = some l' }, found)
]

-- a value, or an error
pub data Fetched : Type 0 where
  fetched : GoString → Fetched
  failed : GoString → Fetched

-- `singleflight.Group` as one goroutine sees it; a call has a result once its `fn` has returned
pub record Loader : Type 0 where
  pub locked : Bool
  pub m : GoMap GoString (Option Fetched)

-- `Group`; a peer is asked with the group's name and the key
pub record Group : Type 0 where
  pub name : GoString
  pub getter : GoString → Fetched
  pub main_cache : MainCache
  pub peers : Option (GoString → Option (GoString → GoString → Fetched))
  pub loader : Loader

-- the table `groups`, with the group that `NewGroup` returns; it panics without a getter
unfoldable pub new_group :
    GoMap GoString Group
    → GoString
    → ℕ
    → Option (GoString → Fetched)
    → Outcome (GoMap GoString Group × Group)
new_group groups name cache_bytes none = panic
new_group groups name cache_bytes (some getter) =
    let g : Group = record {
      name = name;
      getter = getter;
      main_cache = record { lru = none; cache_bytes = cache_bytes };
      peers = none;
      loader = record { locked = false; m = [] };
    } in
    ok (insert name g groups, g)

unfoldable pub get_groups : GoMap GoString Group → GoString → Option Group
get_groups groups name = lookup name groups

unfoldable pub register_peer_picker :
    Group → (GoString → Option (GoString → GoString → Fetched)) → Outcome Group
register_peer_picker g peers = elim g.peers [
  | some p ↦ panic
  | none ↦ ok (record g { peers = some peers })
]

unfoldable pub get_from_peer : Group → (GoString → GoString → Fetched) → GoString → Fetched
get_from_peer g peer key = peer g.name key

unfoldable pub populate_cache : Group → GoString → ByteView → Outcome Group
populate_cache g key value = do
  c ← add_main g.main_cache key value
  ok (record g { main_cache = c })

unfoldable pub get_locally : Group → GoString → Outcome (Group × Fetched)
get_locally g key = elim (g.getter key) [
  | failed err ↦ ok (g, failed err)
  | fetched bytes ↦ do
    g' ← populate_cache g key (clone_bytes bytes)
    ok (g', fetched (clone_bytes bytes))
]

-- what the peer of the key answers, if there is one and it answers
unfoldable pub ask_peer : Group → GoString → Option GoString
ask_peer g key = elim g.peers [
  | none ↦ none
  | some pick_peer ↦ elim (pick_peer key) [
    | none ↦ none
    | some peer ↦ elim (get_from_peer g peer key) [ fetched v ↦ some v | failed err ↦ none ]
  ]
]

-- the function that `load` gives to the loader
unfoldable pub fetch : Group → GoString → Outcome (Group × Fetched)
fetch g key = elim (ask_peer g key) [ some v ↦ ok (g, fetched v) | none ↦ get_locally g key ]

-- `mu.Lock()`, which waits for ever on a mutex that this goroutine holds
abbrev pub acquire : Bool → Outcome Bool
acquire true = blocked
acquire false = ok true

-- `Do`
unfoldable pub do_key :
    Group → GoString → (Group → Outcome (Group × Fetched)) → Outcome (Group × Fetched)
do_key g key fn = do
  held ← acquire g.loader.locked
  elim (lookup key g.loader.m) [
    | some none ↦ blocked
    | some (some v) ↦ ok (g, v)
    | none ↦ do
      again ← acquire held
      (g', v) ← fn (record g { loader = record { locked = false; m = insert key none g.loader.m } })
      ok (record g' { loader = record { locked = false; m = delete key g'.loader.m } }, v)
  ]

unfoldable pub load : Group → GoString → Outcome (Group × Fetched)
load g key = do_key g key (λ g'. fetch g' key)

unfoldable pub get : Group → GoString → Outcome (Group × Fetched)
get g key = if key == [] then ok (g, failed (str "key is required")) else (do
  (c, found) ← get_main g.main_cache key
  elim found [
    | some value ↦ ok (record g { main_cache = c }, fetched value)
    | none ↦ load (record g { main_cache = c }) key
  ])
