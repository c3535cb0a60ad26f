-- ===== src/Tests/Servers.antt =====
-- The list of servers at concrete inputs.
use text.Mathlib.Text.{◌==◌ as str_eq}
use ih_server.Base.{
  ℕ, ℤ, pos, ◌+₃₂◌, ◌-₃₂◌, ◌+ℤ◌, ◌-ℤ◌, wrap32, List, [], ◌∷◌, none, some, true, false, ◌≤?◌,
  if◌then◌else◌, get_elem?, lookup, insert, ◌≡◌, ◌⊎◌, refl, arith,
}
use ih_server.ServerList.{
  HallServerInfo, CrossInfo, ServerList, Codec, weigh, read_config, read_config_file, reread_config,
  run_round, index_crosses, map_crosses, map_servers, choose, random_one_server, get_servers,
  get_cross_servers, get_cross_by_server_id, get_server_by_id, has_server_id, is_same_cross,
  same_pointer,
}
use ih_server.ServerList.Choice.{Falls, random_one_server-Falls}
use ih_server.ServerList.Reread.{run_round_panic}
use ih_server.ServerList.Cross.{Unlisted, lists, is_same_cross_exact}

abbrev server : ℤ → ℤ → HallServerInfo
server id weight = record {
  id = id;
  name = "hall";
  ip = "10.0.0.1";
  weight = weight;
  client_os = "";
  verify_use = false;
}

abbrev three_servers : List HallServerInfo
three_servers = server (pos 1) (pos 5) ∷ server (pos 2) (pos 0) ∷ server (pos 3) (pos 3) ∷ []

abbrev cross : CrossInfo
cross = record { id = pos 9; server_ids = pos 1 ∷ pos 3 ∷ [] }

abbrev no_list : ServerList
no_list = record {
  common_ip = "";
  servers = [];
  total_weight = pos 0;
  cross_list = none;
  id2cross = [];
  server_id2cross = [];
  ios_verify_server_id = pos 0;
  config_path = "";
  md5_str = "";
  last_time = pos 0;
}

-- The text "good" names three servers and a cross; no other text is one that can be read.
abbrev codec : Codec
codec = record {
  unmarshal = λ text s.
      if str_eq text "good"
      then (
        record s {
          servers =
              some (server (pos 1) (pos 5))
              ∷ some (server (pos 2) (pos 0))
              ∷ some (server (pos 3) (pos 3))
              ∷ [];
          cross_list = some (some cross ∷ none ∷ []);
        },
        true,
      )
      else (s, false);
  get_md5 = λ text. text;
}

abbrev listed : ServerList
listed = record {
  common_ip = "";
  servers =
      some (server (pos 1) (pos 5))
      ∷ some (server (pos 2) (pos 0))
      ∷ some (server (pos 3) (pos 3))
      ∷ [];
  total_weight = pos 8;
  cross_list = some (some cross ∷ none ∷ []);
  id2cross = (pos 9, 0) ∷ [];
  server_id2cross = (pos 1, 0) ∷ (pos 3, 0) ∷ [];
  ios_verify_server_id = pos 0;
  config_path = "";
  md5_str = "good";
  last_time = pos 0;
}

listed_read : read_config codec "good" no_list ≡ some (listed, true)
unfolding read_config weigh index_crosses map_crosses map_servers lookup insert ◌+₃₂◌ ◌+ℤ◌ wrap32
listed_read = refl

random_one_server-Falls_example :
    ((i : ℕ) × (v : HallServerInfo) × Falls listed.servers 6 i v)
    × ((i : ℕ) (v : HallServerInfo)
        → Falls listed.servers 6 i v
        → random_one_server (λ w. pos 6) listed ≡ some (some v))
random_one_server-Falls_example =
    random_one_server-Falls codec "good" no_list listed (λ w. pos 6) 6 listed_read (omega arith)
      refl (omega arith)

third_server : random_one_server (λ w. pos 6) listed ≡ some (some (server (pos 3) (pos 3)))
unfolding random_one_server choose ◌-₃₂◌ ◌-ℤ◌ wrap32
third_server = refl

bad_text : (t : ServerList) → codec.unmarshal "bad" t ≡ (t, false)
bad_text t = refl

minute_passed : (pos 60 ≤? pos 100 -₃₂ listed.last_time) ≡ true
unfolding ◌-₃₂◌ ◌-ℤ◌ wrap32
minute_passed = refl

run_round_panic_example :
    (t : ServerList) × (run_round codec (pos 100) (some "bad") listed ≡ some t)
    × (random_one_server (λ w. pos 0) t ≡ none)
run_round_panic_example =
    run_round_panic codec listed "bad" (pos 100) (λ w. pos 0) bad_text refl minute_passed

is_same_cross_exact_example :
    (is_same_cross (pos 1) (pos 3) (index_crosses listed) ≡ true
      → (Unlisted (pos 1) (some cross ∷ none ∷ []) × Unlisted (pos 3) (some cross ∷ none ∷ []))
        ⊎ ((i : ℕ) × (lists (pos 1) (get_elem? (some cross ∷ none ∷ []) i) ≡ true)
            × (lists (pos 3) (get_elem? (some cross ∷ none ∷ []) i) ≡ true)))
    × (Unlisted (pos 1) (some cross ∷ none ∷ [])
        → Unlisted (pos 3) (some cross ∷ none ∷ [])
        → is_same_cross (pos 1) (pos 3) (index_crosses listed) ≡ true)
is_same_cross_exact_example =
    is_same_cross_exact listed (some cross ∷ none ∷ []) (pos 1) (pos 3) refl

crosses :
    (is_same_cross (pos 1) (pos 3) listed ≡ true)
    × (is_same_cross (pos 1) (pos 2) listed ≡ false)
    × (is_same_cross (pos 2) (pos 7) listed ≡ true)
    × (get_cross_servers (pos 9) listed ≡ some 0)
    × (get_cross_by_server_id (pos 2) listed ≡ none)
unfolding is_same_cross same_pointer lookup get_cross_servers get_cross_by_server_id
crosses = (refl, refl, refl, refl, refl)

found :
    (get_server_by_id (pos 3) (get_servers listed) ≡ some (server (pos 3) (pos 3)))
    × (has_server_id (pos 4) (get_servers listed) ≡ some false)
    × (has_server_id (pos 4) (none ∷ listed.servers) ≡ none)
unfolding get_server_by_id get_servers has_server_id
found = (refl, refl, refl)

file_read :
    read_config_file codec "list.json" (some "good") no_list
    ≡ some (record listed { config_path = "list.json" }, true)
unfolding read_config_file read_config weigh index_crosses map_crosses map_servers lookup insert
    ◌+₃₂◌ ◌+ℤ◌ wrap32
file_read = refl

kept : reread_config codec (some "good") listed ≡ some (listed, true)
unfolding reread_config
kept = refl
