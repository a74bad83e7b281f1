-- ===== src/GeeRpc/Service.antt =====
-- geeRpc/service.go and the table of services of geeRpc/server.go. What reflection tells of a type
-- enters as data.
pub mod Finds
pub mod Counts
mod Tests
use go_little_project.Base.{
  ℕ, suc, ◌≡◌, Bool, true, false, not, ◌&&◌, ◌||◌, List, [], ◌∷◌, ◌++◌, Option, none, some,
  GoString, GoMap, lookup, insert, str, nat_eq, str_eq, ◌==◌, if◌then◌else◌, get_elem?, length,
  drop, Outcome, ok, panic, demand, ◌>>=◌, ◌⊎◌, inl, inr,
}
use go_little_project.Base.Int64.{add64}
use go_little_project.GeeRpc.Client.{GoError}

-- the kind of the type that a type points to or has as its elements
pub data ElemKind : Type 0 where
  map_kind slice_kind other_kind : ElemKind

-- a reflect.Type: whether its name is exported, its package, and the kind of its `Elem`, if there
-- is one
pub record ReflectType : Type 0 where
  pub name : GoString
  pub exported : Bool
  pub pkg_path : GoString
  pub elem : Option ElemKind

-- a reflect.Method: the parameters begin with the receiver
pub record Method : Type 0 where
  pub name : GoString
  pub ins : List ReflectType
  pub outs : List Bool

-- `methodType`
pub record MethodType : Type 0 where
  pub method : Method
  pub arg_type : ReflectType
  pub reply_type : ReflectType
  pub num_calls : ℕ

pub record Service : Type 0 where
  pub name : GoString
  pub method : GoMap GoString MethodType

-- `newReplyV`, with the kind of the value that is made: a type without `Elem` panics, and so does
-- MakeMap of the type of a slice
unfoldable pub new_reply_v : MethodType → Outcome ElemKind
new_reply_v m = elim m.reply_type.elem [
  | none ↦ panic
  | some kind ↦ elim kind [
    | map_kind ↦ ok map_kind
    | slice_kind ↦ panic
    | other_kind ↦ ok other_kind
  ]
]

-- `NumCalls`
unfoldable pub num_calls_of : MethodType → ℕ
num_calls_of m = m.num_calls

-- `call`, with what the method does: the counter is written before it
unfoldable pub call_method : MethodType → Outcome GoError → Outcome (MethodType × GoError)
call_method m returned =
    let counted : MethodType = record m { num_calls = add64 m.num_calls 1 } in
    (do err ← returned; ok (counted, err))

unfoldable pub is_exported_or_built_in : ReflectType → Bool
is_exported_or_built_in t = t.exported || t.pkg_path == []

-- what `registerMethods` stores for a method with these parameters and results, if it takes it;
-- a result is true if its type is `error`
unfoldable pub method_type : Method → List ReflectType → List Bool → Option MethodType
method_type m (a ∷ b ∷ c ∷ []) (true ∷ []) =
    if is_exported_or_built_in a && is_exported_or_built_in b
    then some (record { method = m; arg_type = a; reply_type = b; num_calls = 0 })
    else none
method_type m _ _ = none

-- the loop of `registerMethods`
unfoldable pub register_methods :
    List Method → GoMap GoString MethodType → GoMap GoString MethodType
register_methods [] table = table
register_methods (m ∷ ms) table =
    register_methods ms
      (elim (method_type m m.ins m.outs) [ none ↦ table | some t ↦ insert m.name t table ])

-- `newService`; log.Fatalf ends the program
unfoldable pub new_service : ReflectType → List Method → Outcome Service
new_service typ methods =
    if typ.exported
    then ok (record { name = typ.name; method = register_methods methods [] })
    else panic

-- `Server`, the map of services
abbrev pub Server : Type 0
Server = GoMap GoString Service

-- `LoadOrStore`, with the error of `Register`
unfoldable pub load_or_store : Server → Service → Server × Option GoString
load_or_store s serv = elim (lookup serv.name s) [
  | some dup ↦ (s, some (str "rpc: service already defined: " ++ serv.name))
  | none ↦ (insert serv.name serv s, none)
]

-- `Register`, with its error
unfoldable pub register : Server → ReflectType → List Method → Outcome (Server × Option GoString)
register s typ methods = do serv ← new_service typ methods; ok (load_or_store s serv)

-- strings.LastIndex for one byte: the text before the last one and the text after it
unfoldable pub cut_last : ℕ → GoString → Option (GoString × GoString)
cut_last sep [] = none
cut_last sep (c ∷ s) = elim (cut_last sep s) [
  | some (before, after) ↦ some (c ∷ before, after)
  | none ↦ if c == sep then some ([], s) else none
]

-- `FindService`: the service and the method, or the error
unfoldable pub find_service : Server → GoString → (Service × MethodType) ⊎ GoString
find_service s service_method = elim (cut_last b'.' service_method) [
  | none ↦ inr (str "rpc server: service/method request ill formed: " ++ service_method)
  | some (service_name, method_name) ↦ elim (lookup service_name s) [
    | none ↦ inr (str "rpc serve: can't find this service: " ++ service_name)
    | some svc ↦ elim (lookup method_name svc.method) [
      | none ↦ inr (str "rpc server: can't find this method: " ++ method_name)
      | some m_type ↦ inl (svc, m_type)
    ]
  ]
]
