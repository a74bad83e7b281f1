-- ===== src/GeeRpc/Registry.antt =====
-- geeRpc/registry/registry.go. Times and durations are numbers of nanoseconds. `time.Now()` enters
-- as an argument; in the loop of `aliveServers`, which reads the clock again for each server, it is
-- a function of the server's address.
pub mod Alive
pub mod Serve
use go_little_project.Base.{
  ℕ, ◌+◌, ◌≡◌, Bool, true, false, ◌||◌, ◌&&◌, List, [], ◌∷◌, Option, none, some, GoString, GoMap,
  lookup, insert, delete, str, join, ltb, nat_beq, ◌==◌, nat_eq, str_eq, if◌then◌else◌,
}

pub record ServerItem : Type 0 where
  pub addr : GoString
  pub start : ℕ

pub record GeeRegistry : Type 0 where
  pub timeout : ℕ
  pub servers : GoMap GoString ServerItem

-- `New`
unfoldable pub new : ℕ → GeeRegistry
new timeout = record { timeout = timeout; servers = [] }

-- `putServer`
unfoldable pub put_server : GeeRegistry → GoString → ℕ → GeeRegistry
put_server r addr now = elim (lookup addr r.servers) [
  | none ↦ record r { servers = insert addr (record { addr = addr; start = now }) r.servers }
  | some s ↦ record r { servers = insert addr (record s { start = now }) r.servers }
]

-- `r.timeout == 0 || s.Start.Add(r.timeout).After(time.Now())`
unfoldable pub is_alive : ℕ → ℕ → ServerItem → Bool
is_alive timeout now s = timeout == 0 || ltb now (s.start + timeout)

-- the loop of `aliveServers` over the entries: the addresses found, and the map after the deletes
unfoldable pub alive_loop :
    ℕ
    → (GoString → ℕ)
    → GoMap GoString ServerItem
    → GoMap GoString ServerItem
    → List GoString × GoMap GoString ServerItem
alive_loop timeout now [] servers = ([], servers)
alive_loop timeout now ((addr, s) ∷ entries) servers =
    let live = is_alive timeout (now addr) s in
    let (addrs, left) =
      alive_loop timeout now entries (if live then servers else delete addr servers) in
    (if live then addr ∷ addrs else addrs, left)

-- the order of strings
unfoldable pub str_le : GoString → GoString → Bool
str_le [] t = true
str_le (a ∷ s) [] = false
str_le (a ∷ s) (b ∷ t) = ltb a b || (nat_beq a b && str_le s t)

-- sort.Strings
unfoldable pub insert_string : GoString → List GoString → List GoString
insert_string s [] = s ∷ []
insert_string s (t ∷ ts) = if str_le s t then s ∷ t ∷ ts else t ∷ insert_string s ts

unfoldable pub sort_strings : List GoString → List GoString
sort_strings [] = []
sort_strings (s ∷ ss) = insert_string s (sort_strings ss)

unfoldable pub alive_servers : GeeRegistry → (GoString → ℕ) → GeeRegistry × List GoString
alive_servers r now =
    let (addrs, left) = alive_loop r.timeout now r.servers r.servers in
    (record r { servers = left }, sort_strings addrs)

pub record Request : Type 0 where
  pub method : GoString
  pub header : GoMap GoString GoString

-- the headers of the response writer, and the status, 200 where none is written
pub record Writer : Type 0 where
  pub header : GoMap GoString GoString
  pub status : ℕ

abbrev pub fresh_writer : Writer
fresh_writer = record { header = []; status = 200 }

-- `Header().Get`
abbrev pub header_get : GoString → GoMap GoString GoString → GoString
header_get key header = elim (lookup key header) [ none ↦ [] | some v ↦ v ]

-- `ServeHTTP`; the request's own headers are not read
unfoldable pub serve_http : GeeRegistry → Writer → Request → (GoString → ℕ) → GeeRegistry × Writer
serve_http r w req now =
    if req.method == str "GET"
    then (let (r', addrs) = alive_servers r now in
        (r', record w { header = insert (str "X-GeeRpc-Servers") (join addrs (str ",")) w.header }))
    else if req.method == str "POST"
    then (let addr = header_get (str "X-GeeRpc-Server") w.header in
        if addr == [] then (r, record w { status = 500 }) else (put_server r addr (now addr), w))
    else (r, record w { status = 405 })
