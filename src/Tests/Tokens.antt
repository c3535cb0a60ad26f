-- ===== src/Tests/Tokens.antt =====
-- Login tokens at concrete inputs.
use Prim.Native.String.{String}
use text.Mathlib.Text.{◌==◌ as str_eq}
use text.Mathlib.TextEquality.{eq_iff}
use ih_server.Base.{
  ℕ, pos, negsuc, [], ◌∷◌, none, some, true, false, if◌then◌else◌, text_lookup, text_insert,
  text_delete, ◌≡◌, ◌≢◌, refl, arith,
}
use ih_server.LoginToken.{
  RedisLoginTokenInfo, LoginTokenInfo, LoginTokenMgr, init, loaded, load_items, load_redis_data,
  save_redis_login_token, add_to_uid2token, bind_new_account, remove_from_uid2token,
  get_token_by_uid, get_login_server_by_uid, set_token, get_uid_by_account,
}
use ih_server.LoginToken.Linked.{Linked, Fits}
use ih_server.LoginToken.Steps.{adds, renews, Reached, start, then_step, Reached-Linked}
use ih_server.LoginToken.Bind.{Bound, bind_new_account_exact, add_to_uid2token_twice}

abbrev empty : LoginTokenMgr ℕ
empty = record { uid2token = []; acc2uid = []; posted = [] }

abbrev info : LoginTokenInfo ℕ
info = record {
  account = "ann";
  token = "t1";
  playerid = pos 7;
  create_time = pos 50;
  login_server = some 2;
}

abbrev one_token : LoginTokenMgr ℕ
one_token = record {
  uid2token = ("u1", info) ∷ [];
  acc2uid = ("ann", "u1") ∷ [];
  posted = ("u1", record { token = "t1"; player_id = pos 7; create_time = pos 50 }) ∷ [];
}

added : add_to_uid2token (pos 50) "u1" "ann" "t1" (pos 7) (some 2) init ≡ one_token
unfolding add_to_uid2token save_redis_login_token init text_insert
added = refl

new-Fits : Fits "u1" "ann" (init {Conn = ℕ})
unfolding init text_lookup
new-Fits = record {
  one_account = λ t h. absurd (ground (arith, h));
  one_uid = λ v h. absurd (ground (arith, h));
}

-- An account is added, and its token renewed.
abbrev renewed : LoginTokenMgr ℕ
renewed =
    (set_token (pos 60) "u1" "t2" (pos 7)
      (add_to_uid2token (pos 50) "u1" "ann" "t1" (pos 7) (some 2) init)).0

renewed-Reached : Reached renewed
renewed-Reached =
    then_step (then_step start (adds (pos 50) "u1" "ann" "t1" (pos 7) (some 2) new-Fits))
      (renews (pos 60) "u1" "t2" (pos 7))

Reached-Linked_example : Linked renewed
Reached-Linked_example = Reached-Linked renewed-Reached

-- Two different texts.
differ : (s t : String) → str_eq s t ≡ false → s ≢ t
differ s t h e = ground (arith, eq_iff s t, h, e)

bind_new_account_exact_example :
    (get_token_by_uid "u1" one_token ≡ none → bind_new_account "u1" "ann" "bob" one_token ≡ none)
    × ((t : LoginTokenInfo ℕ)
        → get_token_by_uid "u1" one_token ≡ some t
        → t.account ≢ "ann"
        → bind_new_account "u1" "ann" "bob" one_token ≡ some (one_token, false))
    × ((t : LoginTokenInfo ℕ)
        → get_token_by_uid "u1" one_token ≡ some t
        → t.account ≡ "ann"
        → (q : LoginTokenMgr ℕ) × (bind_new_account "u1" "ann" "bob" one_token ≡ some (q, true))
          × Bound "u1" "ann" "bob" t q)
bind_new_account_exact_example =
    bind_new_account_exact "u1" "ann" "bob" one_token (differ "u1" "" refl)

-- The account of a uid is replaced by another addition.
abbrev twice : LoginTokenMgr ℕ
twice =
    add_to_uid2token (pos 60) "u1" "bob" "t2" (pos 7) (some 2)
      (add_to_uid2token (pos 50) "u1" "ann" "t1" (pos 7) (some 2) empty)

add_to_uid2token_twice_example :
    ((t : LoginTokenInfo ℕ) × (get_token_by_uid "u1" twice ≡ some t) × (t.account ≡ "bob"))
    × (get_uid_by_account "bob" twice ≡ "u1")
    × (get_uid_by_account "ann" twice ≡ "u1")
add_to_uid2token_twice_example =
    add_to_uid2token_twice (pos 50) (pos 60) "u1" "ann" "bob" "t1" "t2" (pos 7) (some 2) empty
      (differ "u1" "" refl) (differ "ann" "" refl) (differ "bob" "" refl) (differ "t1" "" refl)
      (differ "t2" "" refl) (differ "ann" "bob" refl)

abbrev item : RedisLoginTokenInfo
item = record { token = "t0"; player_id = pos 3; create_time = pos 9 }

-- Of the fields of the hash, those before one that cannot be read are loaded.
loads :
    load_redis_data
      (λ s. if str_eq s "good" then some item else none)
      (some (("u3", "good") ∷ ("u4", "bad") ∷ []))
      empty
    ≡ (record empty { uid2token = ("u3", loaded item) ∷ [] }, negsuc 0)
unfolding load_redis_data load_items text_insert
loads = refl

server_known : get_login_server_by_uid "u1" one_token ≡ some 2
unfolding get_login_server_by_uid text_lookup
server_known = refl

removed : (remove_from_uid2token "u1" one_token).uid2token ≡ []
unfolding remove_from_uid2token text_lookup text_delete
removed = refl
