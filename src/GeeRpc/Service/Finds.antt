-- ===== src/GeeRpc/Service/Finds.antt =====
-- What `FindService` finds.
use go_little_project.Base.{
  ap, ℕ, ◌≡◌, refl, ◌≢◌, true, List, [], ◌∷◌, ◌++◌, none, some, GoString, lookup, insert, str_eq,
  nat_eq, ok, inl, arith, lookup-insert, str_beq_iff, nat_beq_iff, IsFree, lookup-insert_self,
}
use go_little_project.GeeRpc.Service.{
  ReflectType, Method, MethodType, Service, Server, register_methods, new_service, register,
  cut_last, find_service, load_or_store,
}

cut_last-free : (sep : ℕ) (s : GoString) → IsFree sep s → cut_last sep s ≡ none
unfolding cut_last
cut_last-free sep [] h = refl
cut_last-free sep (c ∷ s) (ne, h) =
    rw (cut_last, cut_last-free sep s h) (ground (arith, nat_beq_iff c sep))

pub cut_last-append :
    (sep : ℕ) (s m : GoString) → IsFree sep m → cut_last sep (s ++ sep ∷ m) ≡ some (s, m)
unfolding cut_last
cut_last-append sep [] m h =
    rw (cut_last, cut_last-free sep m h) (ground (arith, nat_beq_iff sep sep))
cut_last-append sep (c ∷ s) m h = rw (cut_last, cut_last-append sep s m h) refl

new_service_lem :
    (typ : ReflectType) (methods : List Method)
    → typ.exported ≡ true
    → new_service typ methods
      ≡ ok (record { name = typ.name; method = register_methods methods [] })
unfolding new_service
new_service_lem typ methods exp = rw exp refl

load_or_store_lem :
    (s : Server) (svc : Service)
    → lookup svc.name s ≡ none
    → load_or_store s svc ≡ (insert svc.name svc s, none)
unfolding load_or_store
load_or_store_lem s svc new = rw (load_or_store, new) refl

-- After a type with an exported name that no service has yet is registered, each of its methods
-- that `registerMethods` has taken is found under service.method, if its name has no dot. Every
-- other service is found as before.
pub register-find :
    (s : Server) (typ : ReflectType) (methods : List Method) (m : GoString) (t : MethodType)
    → typ.exported ≡ true
    → lookup typ.name s ≡ none
    → IsFree b'.' m
    → lookup m (register_methods methods []) ≡ some t
    → (s' : Server) × (svc : Service) × (register s typ methods ≡ ok (s', none))
      × (find_service s' (typ.name ++ b'.' ∷ m) ≡ inl (svc, t))
      × ((other : GoString) → other ≢ typ.name → lookup other s' ≡ lookup other s)
unfolding register new_service find_service
register-find s typ methods m t exp new free found =
    let svc : Service = record { name = typ.name; method = register_methods methods [] } in
    (
      insert typ.name svc s,
      svc,
      rw (register, new_service_lem typ methods exp) (ap (λ r. ok r) (load_or_store_lem s svc new)),
      rw
          (
            find_service,
            cut_last-append b'.' typ.name m free,
            lookup-insert_self typ.name svc s,
            found,
          )
          refl,
      λ other ne. ground (arith, lookup-insert typ.name other svc s, str_beq_iff typ.name other),
    )
