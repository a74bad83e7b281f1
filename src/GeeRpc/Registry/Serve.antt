-- ===== src/GeeRpc/Registry/Serve.antt =====
-- What the registry learns from the requests that it serves.
use go_little_project.Base.{
  ℕ, ◌≡◌, refl, List, [], ◌∷◌, GoString, lookup, str, ◌==◌, str_eq, Bool-cases, inl, inr,
}
use go_little_project.GeeRpc.Registry.{
  GeeRegistry, Request, fresh_writer, new, alive_loop, alive_servers, serve_http,
}

-- the registry after the requests, each with a response writer of its own
unfoldable pub serve_all : GeeRegistry → List Request → (GoString → ℕ) → GeeRegistry
serve_all r [] now = r
serve_all r (q ∷ qs) now = serve_all (serve_http r fresh_writer q now).0 qs now

serve-empty :
    (r : GeeRegistry) (q : Request) (now : GoString → ℕ)
    → r.servers ≡ []
    → (serve_http r fresh_writer q now).0.servers ≡ []
unfolding serve_http alive_servers alive_loop lookup
serve-empty r q now e = elim (Bool-cases (q.method == str "GET")) [
  | inl get ↦ rw (get, e, alive_loop) refl
  | inr no_get ↦ elim (Bool-cases (q.method == str "POST")) [
    | inl post ↦ rw (no_get, post) e
    | inr no_post ↦ rw (no_get, no_post) e
  ]
]

served_empty :
    (r : GeeRegistry) (qs : List Request) (now : GoString → ℕ)
    → r.servers ≡ []
    → (serve_all r qs now).servers ≡ []
unfolding serve_all
served_empty r [] now e = e
served_empty r (q ∷ qs) now e =
    served_empty (serve_http r fresh_writer q now).0 qs now (serve-empty r q now e)

-- A new registry never learns of a server: whatever requests arrive, with whatever headers, its
-- map stays empty. `POST` reads the address from the headers of the response.
pub serve_all-empty :
    (timeout : ℕ) (qs : List Request) (now : GoString → ℕ)
    → (serve_all (new timeout) qs now).servers ≡ []
unfolding new
serve_all-empty timeout qs now =
    served_empty (record { timeout = timeout; servers = [] }) qs now refl
