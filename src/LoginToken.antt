-- ===== src/LoginToken.antt =====
-- src/hall_server/login_token.go: the tokens by which a client that has logged in is known. A lock
-- makes each operation one step. The writes to redis are recorded in order; a write that redis refuses
-- is only logged.
pub mod Linked
pub mod Steps
pub mod Bind
use Prim.Native.String.{String}
use text.Mathlib.Text.{◌==◌ as str_eq}
use ih_server.Base.{
  ℤ, pos, negsuc, List, [], ◌∷◌, ◌++◌, Option, none, some, Bool, true, false, ◌||◌, if◌then◌else◌,
  TextDict, text_lookup, text_insert, text_delete, text_or_empty,
}

-- RedisLoginTokenInfo
pub record RedisLoginTokenInfo : Type 0 where
  pub token : String
  pub player_id : ℤ
  pub create_time : ℤ

-- LoginTokenInfo; a connection stands for its pointer.
pub record LoginTokenInfo (Conn : Type 0) : Type 0 where
  pub account : String
  pub token : String
  pub playerid : ℤ
  pub create_time : ℤ
  pub login_server : Option Conn

-- LoginTokenMgr, with what was posted to redis: HSET of a uid and its item.
pub record LoginTokenMgr (Conn : Type 0) : Type 0 where
  pub uid2token : TextDict (LoginTokenInfo Conn)
  pub acc2uid : TextDict String
  pub posted : List (String × RedisLoginTokenInfo)

module _ {Conn : Type 0} where
  -- Init
  unfoldable pub init : LoginTokenMgr Conn
  init = record { uid2token = []; acc2uid = []; posted = [] }

  -- What an item of redis is loaded as.
  unfoldable pub loaded : RedisLoginTokenInfo → LoginTokenInfo Conn
  loaded j = record {
    account = "";
    token = j.token;
    playerid = j.player_id;
    create_time = j.create_time;
    login_server = none;
  }

  -- The loop of LoadRedisData over the fields of the hash, and json.Unmarshal as `decode`.
  unfoldable pub load_items :
      (String → Option RedisLoginTokenInfo)
      → List (String × String)
      → LoginTokenMgr Conn
      → LoginTokenMgr Conn × ℤ
  load_items decode [] s = (s, pos 1)
  load_items decode ((k, item) ∷ l) s = elim (decode item) [
    | none ↦ (s, negsuc 0)
    | some j ↦ load_items decode l (record s { uid2token = text_insert k (loaded j) s.uid2token })
  ]

  -- LoadRedisData, of what HGETALL returns
  unfoldable pub load_redis_data :
      (String → Option RedisLoginTokenInfo)
      → Option (List (String × String))
      → LoginTokenMgr Conn
      → LoginTokenMgr Conn × ℤ
  load_redis_data decode none s = (s, negsuc 0)
  load_redis_data decode (some string_map) s = load_items decode string_map s

  -- _save_redis_login_token
  unfoldable pub save_redis_login_token :
      String → String → ℤ → ℤ → LoginTokenMgr Conn → LoginTokenMgr Conn
  save_redis_login_token uid token now_time player_id s = record s {
    posted =
        s.posted
        ++ (uid, record { token = token; player_id = player_id; create_time = now_time }) ∷ [];
  }

  -- AddToUid2Token
  unfoldable pub add_to_uid2token :
      ℤ → String → String → String → ℤ → Option Conn → LoginTokenMgr Conn → LoginTokenMgr Conn
  add_to_uid2token now uid acc token playerid login_server s =
      if str_eq uid "" || str_eq acc "" || str_eq token ""
      then s
      else save_redis_login_token uid token now playerid (record s {
        uid2token =
            text_insert uid
              (record {
                account = acc;
                token = token;
                playerid = playerid;
                create_time = now;
                login_server = login_server;
              })
              s.uid2token;
        acc2uid = text_insert acc uid s.acc2uid;
      })

  -- BindNewAccount; `none` is the panic at a uid that has no token.
  unfoldable pub bind_new_account :
      String → String → String → LoginTokenMgr Conn → Option (LoginTokenMgr Conn × Bool)
  bind_new_account uid acc new_acc s = elim (text_lookup uid s.uid2token) [
    | none ↦ none
    | some token_info ↦
        if str_eq token_info.account acc
        then some (
          record s {
            uid2token = text_insert uid (record token_info { account = new_acc }) s.uid2token;
            acc2uid = text_insert new_acc uid (text_delete acc s.acc2uid);
          },
          true,
        )
        else some (s, false)
  ]

  -- RemoveFromUid2Token
  unfoldable pub remove_from_uid2token : String → LoginTokenMgr Conn → LoginTokenMgr Conn
  remove_from_uid2token uid s = if str_eq "" uid then s else (elim (text_lookup uid s.uid2token) [
    | none ↦ s
    | some d ↦ record s {
      uid2token = text_delete uid s.uid2token;
      acc2uid = text_delete d.account s.acc2uid;
    }
  ])

  -- GetTokenByUid
  unfoldable pub get_token_by_uid : String → LoginTokenMgr Conn → Option (LoginTokenInfo Conn)
  get_token_by_uid uid s = if str_eq "" uid then none else text_lookup uid s.uid2token

  -- GetLoginServerByUid
  unfoldable pub get_login_server_by_uid : String → LoginTokenMgr Conn → Option Conn
  get_login_server_by_uid uid s = elim (text_lookup uid s.uid2token) [
    | none ↦ none
    | some item ↦ item.login_server
  ]

  -- SetToken
  unfoldable pub set_token :
      ℤ → String → String → ℤ → LoginTokenMgr Conn → LoginTokenMgr Conn × Bool
  set_token now uid token player_id s = elim (text_lookup uid s.uid2token) [
    | none ↦ (s, false)
    | some item ↦ (
      save_redis_login_token uid token now player_id
          (record s { uid2token = text_insert uid (record item { token = token }) s.uid2token }),
      true,
    )
  ]

  -- GetUidByAccount
  unfoldable pub get_uid_by_account : String → LoginTokenMgr Conn → String
  get_uid_by_account acc s = text_or_empty (text_lookup acc s.acc2uid)
