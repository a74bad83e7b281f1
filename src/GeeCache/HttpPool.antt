-- ===== src/GeeCache/HttpPool.antt =====
-- geeCache/http.go: the pool that serves the groups of this process and picks the peer of a key.
-- crc32, the escaping of net/url, the network and the encoding of protobuf are parameters.
pub mod Picks
pub mod Paths
mod Tests
use go_little_project.Base.{
  ℕ, suc, ◌+◌, ◌≡◌, Bool, true, false, not, ◌&&◌, List, [], ◌∷◌, ◌++◌, Option, none, some, GoString,
  GoMap, lookup, insert, str, has_prefix, drop, length, nat_eq, str_eq, ◌==◌, if◌then◌else◌,
  Outcome, ok, panic, demand, ◌>>=◌,
}
use go_little_project.GeeCache.ConsistentHash
use go_little_project.GeeCache.Group.{Group, Fetched, fetched, failed, byte_slice, get}

abbrev pub base_file_path : GoString
base_file_path = str "/_geeCache/"

abbrev pub default_replicas : ℕ
default_replicas = 50

-- a getter is its `baseURL`
pub record HttpPool : Type 0 where
  pub self : GoString
  pub base_path : GoString
  pub peers : Option ConsistentHash.Ring
  pub http_getters : GoMap GoString GoString

unfoldable pub new_http_pool : GoString → HttpPool
new_http_pool self = record {
  self = self;
  base_path = base_file_path;
  peers = none;
  http_getters = [];
}

-- the loop of `Set`
unfoldable pub make_getters : List GoString → GoMap GoString GoString → GoMap GoString GoString
make_getters [] getters = getters
make_getters (add ∷ addrs) getters = make_getters addrs (insert add (add ++ base_file_path) getters)

unfoldable pub set_peers : (GoString → ℕ) → HttpPool → List GoString → HttpPool
set_peers crc32 h addrs = record h {
  peers = some (ConsistentHash.add (ConsistentHash.new crc32 default_replicas none) addrs);
  http_getters = make_getters addrs [];
}

-- the getter of an owner, which is nil if the map has none
unfoldable pub getter_of : HttpPool → GoString → Option (Option GoString)
getter_of h peer =
    if not (peer == []) && not (peer == h.self) then some (lookup peer h.http_getters) else none

-- `PickPeer`
unfoldable pub pick_peer : HttpPool → GoString → Outcome (Option (Option GoString))
pick_peer h key = elim h.peers [
  | none ↦ ok none
  | some ring ↦ do peer ← ConsistentHash.get ring key; ok (getter_of h peer)
]

-- strings.SplitN with one byte and at most two parts: the second one, if there are two
unfoldable pub cut_first : ℕ → GoString → GoString × Option GoString
cut_first sep [] = ([], none)
cut_first sep (c ∷ s) =
    let rest = cut_first sep s in if c == sep then ([], some s) else (c ∷ rest.0, rest.1)

-- the status and the body
abbrev pub HttpReply : Type 0
HttpReply = ℕ × GoString

-- the bytes of the view that `group.Get` returns, empty beside an error
abbrev pub view_of : Fetched → GoString
view_of (fetched b) = byte_slice b
view_of (failed err) = []

-- `proto.Marshal`, and the answer; the error of `group.Get` is lost
unfoldable pub answer : (GoString → Fetched) → Fetched → HttpReply
answer marshal found = elim (marshal (view_of found)) [
  | fetched body ↦ (200, body)
  | failed err ↦ (500, err)
]

-- `ServeHTTP` from `parts` on; there is no second part without a slash
unfoldable pub serve_parts :
    (GoString → Fetched)
    → GoMap GoString Group
    → GoString × Option GoString
    → Outcome (GoMap GoString Group × HttpReply)
serve_parts marshal groups (name, none) = panic
serve_parts marshal groups (name, some key) = elim (lookup name groups) [
  | none ↦ ok (groups, (404, str "no this group " ++ name))
  | some group ↦ do
    (group', found) ← get group key
    ok (insert name group' groups, answer marshal found)
]

-- `ServeHTTP`, with the table of the groups
unfoldable pub serve_http :
    (GoString → Fetched)
    → HttpPool
    → GoMap GoString Group
    → GoString
    → Outcome (GoMap GoString Group × HttpReply)
serve_http marshal h groups path =
    if has_prefix path h.base_path
    then serve_parts marshal groups (cut_first b'/' (drop (length h.base_path) path))
    else panic

-- what `http.Get` returns: an error, or a status, its text and the body as far as it can be read
pub data HttpResult : Type 0 where
  http_failed : GoString → HttpResult
  responded : (status : ℕ) → (text body : GoString) → (read_error : Option GoString) → HttpResult

-- the URL of `Get`; `escape` is url.QueryEscape
unfoldable pub url_of : (GoString → GoString) → GoString → GoString → GoString → GoString
url_of escape base_url group key = base_url ++ (escape group ++ (b'/' ∷ escape key))

-- `Get`; `res.Body` is read before the error is looked at, and without a response it is a nil
-- dereference
unfoldable pub getter_get :
    (GoString → HttpResult)
    → (GoString → Fetched)
    → (GoString → GoString)
    → GoString
    → GoString
    → GoString
    → Outcome Fetched
getter_get http_get unmarshal escape base_url group key =
    elim (http_get (url_of escape base_url group key)) [
      | http_failed err ↦ panic
      | responded status text body read_error ↦
          if status == 200
          then ok (elim (unmarshal body) [
            | failed err ↦ failed (str "decoding response body: " ++ err)
            | fetched value ↦ elim read_error [
              | some err ↦ failed (str "reading response body: " ++ err)
              | none ↦ fetched value
            ]
          ])
          else ok (failed (str "server returned: " ++ text))
    ]
