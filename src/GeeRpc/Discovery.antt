-- ===== src/GeeRpc/Discovery.antt =====
-- geeRpc/xclient/discovery.go and discovery_gee.go: the choice of a server. Times and durations
-- are numbers of nanoseconds; what the clock, the random source and the registry's answer give
-- enters as arguments.
pub mod Rounds
pub mod Refreshes
use go_little_project.Base.{
  ℕ, zero, suc, ◌+◌, ◌≡◌, Bool, List, [], ◌∷◌, Option, none, some, GoString, str, split, length,
  get_elem?, map, keep, ltb, not, ◌==◌, nat_eq, str_eq, if◌then◌else◌, Outcome, ok, demand, ◌>>=◌,
}

-- any other int is `other`
pub data SelectMode : Type 0 where
  random_select round_robin_select : SelectMode
  other : ℕ → SelectMode

pub data Reply (A : Type 0) : Type 0 where
  value : A → Reply A
  failed : GoString → Reply A

pub record MultiServerDiscovery : Type 0 where
  pub servers : List GoString
  pub index : ℕ

-- `NewMultiServerDiscovery`; `start` is what `r.Intn(math.MaxInt32 - 1)` returned
unfoldable pub new_multi : List GoString → ℕ → MultiServerDiscovery
new_multi servers start = record { servers = servers; index = start }

unfoldable pub update : MultiServerDiscovery → List GoString → MultiServerDiscovery
update d servers = record d { servers = servers }

-- `Get`; `intn` is the method `Intn` of the random source
unfoldable pub get :
    (ℕ → ℕ) → MultiServerDiscovery → SelectMode → Outcome (MultiServerDiscovery × Reply GoString)
get intn d mode =
    if length d.servers == 0
    then ok (d, failed (str "rpc discovery: not available discovery"))
    else elim mode [
      | random_select ↦ (do
        server ← demand (get_elem? d.servers (intn (length d.servers)))
        ok (d, value server))
      | round_robin_select ↦ (do
        server ← demand (get_elem? d.servers d.index)
        ok (record d { index = d.index + 1 }, value server))
      | other n ↦ ok (d, failed (str "rpc discovery: not support select mode"))
    ]

-- `GetAll`: a copy of the list
unfoldable pub get_all : MultiServerDiscovery → List GoString
get_all d = d.servers

pub record GeeRegistryDiscovery : Type 0 where
  pub multi : MultiServerDiscovery
  pub registry : GoString
  pub timeout : ℕ
  pub last_update : ℕ

-- `time.Second * 10`
abbrev pub default_update_time_out : ℕ
default_update_time_out = 10000000000

unfoldable pub new_gee : GoString → ℕ → ℕ → GeeRegistryDiscovery
new_gee registry timeout start = record {
  multi = new_multi [] start;
  registry = registry;
  timeout = if timeout == 0 then default_update_time_out else timeout;
  last_update = 0;
}

-- what `http.Get` of the registry returns: the header `X-GeeRpc-Servers`, or an error
pub data Answer : Type 0 where
  servers_header : GoString → Answer
  no_answer : GoString → Answer

-- the servers that `Refresh` reads from the header; `trim` is strings.TrimSpace
unfoldable pub parse_servers : (GoString → GoString) → GoString → List GoString
parse_servers trim header = map trim (keep (λ server. not (trim server == [])) (split header b','))

unfoldable pub refresh :
    (GoString → GoString)
    → GeeRegistryDiscovery
    → ℕ
    → Answer
    → GeeRegistryDiscovery × Option GoString
refresh trim d now answer = if ltb now (d.last_update + d.timeout) then (d, none) else elim answer [
  | no_answer err ↦ (d, some err)
  | servers_header header ↦
      (record d { multi = update d.multi (parse_servers trim header); last_update = now }, none)
]

-- `Get`: a refresh, and the choice
unfoldable pub get_gee :
    (GoString → GoString)
    → (ℕ → ℕ)
    → GeeRegistryDiscovery
    → ℕ
    → Answer
    → SelectMode
    → Outcome (GeeRegistryDiscovery × Reply GoString)
get_gee trim intn d now answer mode =
    let (d', err) = refresh trim d now answer in
    elim err [
      | some e ↦ ok (d', failed e)
      | none ↦ (do (multi, reply) ← get intn d'.multi mode; ok (record d' { multi = multi }, reply))
    ]

-- `GetAll`
unfoldable pub get_all_gee :
    (GoString → GoString)
    → GeeRegistryDiscovery
    → ℕ
    → Answer
    → GeeRegistryDiscovery × Reply (List GoString)
get_all_gee trim d now answer =
    let (d', err) = refresh trim d now answer in
    elim err [ some e ↦ (d', failed e) | none ↦ (d', value (get_all d'.multi)) ]
