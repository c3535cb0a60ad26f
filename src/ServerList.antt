-- ===== src/ServerList.antt =====
-- src/share_data/server_list.go: the list of the hall servers, and which of them cross. A lock makes
-- each operation one step. Elements of the slices may be nil, and a dereferenced nil is a panic: an
-- operation that can panic returns an Option, and `none` is the panic.
pub mod Weights
pub mod Choice
pub mod Reread
pub mod Cross
use Prim.Native.String.{String}
use text.Mathlib.Text.{◌==◌ as str_eq}
use ih_server.Base.{
  ℕ, zero, suc, ℤ, pos, ◌+₃₂◌, ◌-₃₂◌, ◌<?◌, ◌≤?◌, ◌=?◌, List, [], ◌∷◌, Option, none, some, Bool,
  true, false, if◌then◌else◌, ◌==◌, lookup, insert, Dict,
}

-- HallServerInfo
pub record HallServerInfo : Type 0 where
  pub id : ℤ
  pub name : String
  pub ip : String
  pub weight : ℤ
  pub client_os : String
  pub verify_use : Bool

-- CrossInfo
pub record CrossInfo : Type 0 where
  pub id : ℤ
  pub server_ids : List ℤ

-- ServerList; a nil slice of servers is an empty one, which no operation tells apart, and the maps
-- hold a cross by its index in cross_list, which stands for its pointer.
pub record ServerList : Type 0 where
  pub common_ip : String
  pub servers : List (Option HallServerInfo)
  pub total_weight : ℤ
  pub cross_list : Option (List (Option CrossInfo))
  pub id2cross : Dict ℕ
  pub server_id2cross : Dict ℕ
  pub ios_verify_server_id : ℤ
  pub config_path : String
  pub md5_str : String
  pub last_time : ℤ

-- What the loop over the weights ends with.
pub data Weighing : Type 0 where
  nil_server invalid : Weighing
  total : ℤ → Weighing

-- total_weight += s.Weight, for each server
unfoldable pub weigh : List (Option HallServerInfo) → ℤ → Weighing
weigh [] t = total t
weigh (none ∷ l) t = nil_server
weigh (some s ∷ l) t =
    let rest = weigh l (t +₃₂ s.weight) in if s.weight <? pos 0 then invalid else rest

-- this.ServerId2Cross[c.ServerIds[n]] = c, for each n
unfoldable pub map_servers : ℕ → List ℤ → Dict ℕ → Dict ℕ
map_servers c [] m = m
map_servers c (id ∷ ids) m = map_servers c ids (insert id c m)

-- The loop over the crosses, from the one of index `i` on: Id2Cross and ServerId2Cross.
unfoldable pub map_crosses : ℕ → List (Option CrossInfo) → Dict ℕ × Dict ℕ → Dict ℕ × Dict ℕ
map_crosses i [] m = m
map_crosses i (none ∷ l) m = map_crosses (suc i) l m
map_crosses i (some c ∷ l) (ids, servers) =
    map_crosses (suc i) l (insert c.id i ids, map_servers i c.server_ids servers)

unfoldable pub index_crosses : ServerList → ServerList
index_crosses s = elim s.cross_list [
  | none ↦ s
  | some l ↦
      let (ids, servers) = map_crosses 0 l ([], []) in
      record s { id2cross = ids; server_id2cross = servers }
]

-- What the code calls of encoding/json and crypto/md5: Unmarshal fills the fields that the text names
-- and tells whether it could; `get_md5` is _get_md5.
pub record Codec : Type 0 where
  pub unmarshal : String → ServerList → ServerList × Bool
  pub get_md5 : String → String

module _ (codec : Codec) where
  -- _read_config
  unfoldable pub read_config : String → ServerList → Option (ServerList × Bool)
  read_config data_text s =
      let (t, parsed) = codec.unmarshal data_text s in
      if parsed
      then (elim (weigh t.servers (pos 0)) [
        | nil_server ↦ none
        | invalid ↦ some (t, false)
        | total w ↦
            if w ≤? pos 0
            then some (t, false)
            else some (
              record (index_crosses (record t { total_weight = w })) {
                md5_str = codec.get_md5 data_text;
              },
              true,
            )
      ])
      else some (t, false)

  -- ReadConfig, of a file that could be read or not
  unfoldable pub read_config_file : String → Option String → ServerList → Option (ServerList × Bool)
  read_config_file filepath none s = some (s, false)
  read_config_file filepath (some text) s = elim (read_config text s) [
    | none ↦ none
    | some (t, done) ↦
        some (if done then (record t { config_path = filepath }, true) else (t, false))
  ]

  -- RereadConfig
  unfoldable pub reread_config : Option String → ServerList → Option (ServerList × Bool)
  reread_config none s = some (s, false)
  reread_config (some text) s =
      if str_eq (codec.get_md5 text) s.md5_str
      then some (s, true)
      else read_config text (record s { servers = []; total_weight = pos 0 })

  -- One round of Run at a time, with the file as it is then.
  unfoldable pub run_round : ℤ → Option String → ServerList → Option ServerList
  run_round now file s =
      if pos 60 ≤? now -₃₂ s.last_time
      then (elim (reread_config file s) [
        | none ↦ none
        | some (t, done) ↦ some (record t { last_time = now })
      ])
      else some s

-- GetServerById, which skips nil
unfoldable pub get_server_by_id : ℤ → List (Option HallServerInfo) → Option HallServerInfo
get_server_by_id id [] = none
get_server_by_id id (none ∷ l) = get_server_by_id id l
get_server_by_id id (some s ∷ l) = if s.id =? id then some s else get_server_by_id id l

-- HasServerId, which does not
unfoldable pub has_server_id : ℤ → List (Option HallServerInfo) → Option Bool
has_server_id id [] = some false
has_server_id id (none ∷ l) = none
has_server_id id (some s ∷ l) = if s.id =? id then some true else has_server_id id l

-- The loop of RandomOneServer: the server that the number falls on, `none` for nil.
unfoldable pub choose : List (Option HallServerInfo) → ℤ → Option (Option HallServerInfo)
choose [] r = some none
choose (none ∷ l) r = none
choose (some s ∷ l) r =
    let rest = choose l (if s.weight ≤? pos 0 then r else r -₃₂ s.weight) in
    if s.weight ≤? pos 0 then rest else if r <? s.weight then some (some s) else rest

-- RandomOneServer, with rand.Int31n, which panics at a number that is not positive.
unfoldable pub random_one_server : (ℤ → ℤ) → ServerList → Option (Option HallServerInfo)
random_one_server int31n s =
    if s.total_weight ≤? pos 0 then none else choose s.servers (int31n s.total_weight)

-- GetServers
unfoldable pub get_servers : ServerList → List (Option HallServerInfo)
get_servers s = s.servers

-- GetCrossServers and GetCrossByServerId
unfoldable pub get_cross_servers : ℤ → ServerList → Option ℕ
get_cross_servers id s = lookup id s.id2cross

unfoldable pub get_cross_by_server_id : ℤ → ServerList → Option ℕ
get_cross_by_server_id id s = lookup id s.server_id2cross

-- Equality of two pointers to crosses.
unfoldable pub same_pointer : Option ℕ → Option ℕ → Bool
same_pointer none none = true
same_pointer none (some b) = false
same_pointer (some a) none = false
same_pointer (some a) (some b) = a == b

-- IsSameCross
unfoldable pub is_same_cross : ℤ → ℤ → ServerList → Bool
is_same_cross a b s = same_pointer (lookup a s.server_id2cross) (lookup b s.server_id2cross)
