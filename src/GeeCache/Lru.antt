-- ===== src/GeeCache/Lru.antt =====
-- geeCache/lru/lru.go. The list of container/list is the list of its elements, front first; an
-- element keeps its address, by which the map `cache` points to it.
pub mod View
pub mod Index
pub mod Refines
pub mod Reads
use go_little_project.Base.{
  ℕ, suc, ◌+◌, ◌≡◌, Bool, List, [], ◌∷◌, ◌++◌, Option, none, some, GoString, GoMap, lookup, insert,
  delete, length, ◌==◌, nat_eq, str_eq, if◌then◌else◌, Outcome, ok, demand, ◌>>=◌,
}
use go_little_project.Base.Int64.{add64, sub64, lt64}

-- `list.Element` with the `Entry` that it points to
pub record Element (V : Type 0) : Type 0 where
  pub ptr : ℕ
  pub key : GoString
  pub value : V

-- `on_evicted` tells whether OnEvicted is set; `next` is an address that is not in use
pub record Cache (V : Type 0) : Type 0 where
  pub max_bytes : ℕ
  pub n_bytes : ℕ
  pub ll : List (Element V)
  pub cache : GoMap GoString ℕ
  pub on_evicted : Bool
  pub next : ℕ

unfoldable pub new : {V : Type 0} → ℕ → Bool → Cache V
new max_bytes on_evicted = record {
  max_bytes = max_bytes;
  n_bytes = 0;
  ll = [];
  cache = [];
  on_evicted = on_evicted;
  next = 0;
}

module _ {V : Type 0} where
  -- what an element pointer points to
  unfoldable pub deref : ℕ → List (Element V) → Option (Element V)
  deref p [] = none
  deref p (e ∷ es) = if e.ptr == p then some e else deref p es

  -- `ll.Remove`
  unfoldable pub remove : ℕ → List (Element V) → List (Element V)
  remove p [] = []
  remove p (e ∷ es) = let rest = remove p es in if e.ptr == p then rest else e ∷ rest

  -- `ll.Back`
  unfoldable pub back : List (Element V) → Option (Element V)
  back [] = none
  back (e ∷ []) = some e
  back (e ∷ f ∷ es) = back (f ∷ es)

  -- `Get`: the element is moved to the front
  unfoldable pub get : Cache V → GoString → Outcome (Cache V × Option V)
  get c key = elim (lookup key c.cache) [
    | none ↦ ok (c, none)
    | some p ↦ do
      kv ← demand (deref p c.ll)
      ok (record c { ll = kv ∷ remove p c.ll }, some kv.value)
  ]

  -- `Len`
  unfoldable pub len_cache : Cache V → ℕ
  len_cache c = length c.ll

  -- the calls of OnEvicted that one eviction makes
  unfoldable pub notify : Bool → Element V → List (GoString × V)
  notify set e = if set then (e.key, e.value) ∷ [] else []

-- `len` is the method `Len` of the interface `Value`.
module _ {V : Type 0} (len : V → ℕ) where
  -- `removeOldest`, with the calls of OnEvicted
  unfoldable pub remove_oldest : Cache V → Cache V × List (GoString × V)
  remove_oldest c = elim (back c.ll) [
    | none ↦ (c, [])
    | some kv ↦ (
      record c {
        ll = remove kv.ptr c.ll;
        cache = delete kv.key c.cache;
        n_bytes = sub64 c.n_bytes (add64 (length kv.key) (len kv.value));
      },
      notify c.on_evicted kv,
    )
  ]

  -- the first half of `Add`: the entry is updated and moved to the front, or pushed there
  unfoldable pub place : Cache V → GoString → V → Outcome (Cache V)
  place c key value = elim (lookup key c.cache) [
    | none ↦ ok (record c {
      ll = record { ptr = c.next; key = key; value = value } ∷ c.ll;
      cache = insert key c.next c.cache;
      n_bytes = add64 c.n_bytes (add64 (length key) (len value));
      next = suc c.next;
    })
    | some p ↦ do
      kv ← demand (deref p c.ll)
      ok (record c {
        ll = record kv { value = value } ∷ remove p c.ll;
        n_bytes = add64 c.n_bytes (sub64 (len value) (len kv.value));
      })
  ]

  -- the second half of `Add`: at most one entry is evicted
  unfoldable pub shrink : Cache V → Cache V × List (GoString × V)
  shrink c = if lt64 c.max_bytes c.n_bytes then remove_oldest c else (c, [])

  -- `Add`, with the calls of OnEvicted
  unfoldable pub add : Cache V → GoString → V → Outcome (Cache V × List (GoString × V))
  add c key value = do c' ← place c key value; ok (shrink c')
