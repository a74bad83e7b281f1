-- ===== src/GeeRpc/Service/Tests.antt =====
-- Runs of the table of services.
use go_little_project.Base.{
  ◌≢◌, ◌++◌, lookup, GoString, inl, arith, ◌≡◌, refl, true, false, [], ◌∷◌, none, str, insert,
  str_eq, ok, ◌>>=◌,
}
use go_little_project.Base.Int64.{add64}
use go_little_project.GeeRpc.Service.{
  Service, Server, register, find_service, ReflectType, Method, is_exported_or_built_in,
  method_type, register_methods, call_method, num_calls_of,
}
use go_little_project.GeeRpc.Service.Finds.{register-find}

abbrev foo : ReflectType
foo = record { name = str "Foo"; exported = true; pkg_path = str "main"; elem = none }

abbrev int : ReflectType
int = record { name = str "int"; exported = false; pkg_path = []; elem = none }

abbrev sum : Method
sum = record { name = str "Sum"; ins = foo ∷ int ∷ int ∷ []; outs = true ∷ [] }

-- the type of the argument is the receiver's
sum_type :
    register_methods (sum ∷ []) []
    ≡ (str "Sum", record { method = sum; arg_type = foo; reply_type = int; num_calls = 0 }) ∷ []
unfolding register_methods method_type insert is_exported_or_built_in
sum_type = refl

-- the counter wraps around
wraps :
    (call_method
        (record {
          method = sum;
          arg_type = foo;
          reply_type = int;
          num_calls = 18446744073709551615;
        })
        (ok none)
      >>= λ r. ok (num_calls_of r.0))
    ≡ ok 0
unfolding call_method num_calls_of add64
wraps = refl

register-find_example :
    (s' : Server) × (svc : Service) × (register [] foo (sum ∷ []) ≡ ok (s', none))
    × (find_service s' (str "Foo" ++ b'.' ∷ str "Sum")
        ≡ inl (svc, record { method = sum; arg_type = foo; reply_type = int; num_calls = 0 }))
    × ((other : GoString) → other ≢ str "Foo" → lookup other s' ≡ lookup other [])
unfolding register_methods method_type insert is_exported_or_built_in lookup
register-find_example =
    register-find [] foo (sum ∷ []) (str "Sum")
      (record { method = sum; arg_type = foo; reply_type = int; num_calls = 0 }) refl refl
      ((λ e. ground arith), ((λ e. ground arith), ((λ e. ground arith), tt))) refl
