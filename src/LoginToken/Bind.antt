-- ===== src/LoginToken/Bind.antt =====
-- What a binding to another account does, and an account that is left behind.
use Prim.Native.String.{String}
use text.Mathlib.Text.{◌==◌ as str_eq}
use text.Mathlib.TextEquality.{eq_iff}
use ih_server.Base.{
  ℤ, Option, none, some, true, false, ◌≡◌, ◌≢◌, refl, ◌∙◌, arith, text_lookup, text_insert,
  text_delete, text_lookup-text_insert, text_lookup-text_delete,
}
use ih_server.LoginToken.{
  LoginTokenInfo, LoginTokenMgr, add_to_uid2token, bind_new_account, save_redis_login_token,
  get_token_by_uid, get_uid_by_account,
}

module _ {Conn : Type 0} where
  -- The uid has the token `old`, under the account `new_acc`, and is found by that account and not by
  -- the account `acc`.
  pub record Bound (uid acc new_acc : String) (old : LoginTokenInfo Conn) (s : LoginTokenMgr Conn)
      : Type 0 where
    pub token_kept : get_token_by_uid uid s ≡ some (record old { account = new_acc })
    pub found : get_uid_by_account new_acc s ≡ uid
    pub lost : acc ≢ new_acc → get_uid_by_account acc s ≡ ""

  -- BindNewAccount of a uid that is not the empty string panics where the uid has no token; where its
  -- token is of another account than the one named, it refuses and changes nothing; and otherwise the
  -- uid keeps its token under the new account, by which it is found, and the account named is lost.
  pub bind_new_account_exact :
      (uid acc new_acc : String) (s : LoginTokenMgr Conn)
      → uid ≢ ""
      → (get_token_by_uid uid s ≡ none → bind_new_account uid acc new_acc s ≡ none)
        × ((t : LoginTokenInfo Conn)
            → get_token_by_uid uid s ≡ some t
            → t.account ≢ acc
            → bind_new_account uid acc new_acc s ≡ some (s, false))
        × ((t : LoginTokenInfo Conn)
            → get_token_by_uid uid s ≡ some t
            → t.account ≡ acc
            → (q : LoginTokenMgr Conn) × (bind_new_account uid acc new_acc s ≡ some (q, true))
              × Bound uid acc new_acc t q)
  unfolding bind_new_account get_token_by_uid get_uid_by_account
  bind_new_account_exact uid acc new_acc s full =
      let known : str_eq "" uid ≡ false = ground (arith, full, eq_iff "" uid) in
      (
        λ none_at. ground (arith, none_at, known),
        λ t t_at other. ground (arith, known, t_at, other, eq_iff t.account acc),
        λ t t_at is_acc.
            let here : text_lookup uid s.uid2token ≡ some t = ground (arith, t_at, known) in
            let same : str_eq t.account acc ≡ true = ground (arith, is_acc, eq_iff t.account acc) in
            let new : LoginTokenInfo Conn = record t { account = new_acc } in
            let rest = text_delete acc s.acc2uid in
            (
              record s {
                uid2token = text_insert uid new s.uid2token;
                acc2uid = text_insert new_acc uid rest;
              },
              rw (bind_new_account, here, same) refl,
              record {
                token_kept =
                    ground (
                      arith,
                      known,
                      text_lookup-text_insert uid uid new s.uid2token,
                      eq_iff uid uid,
                    );
                found = ground (
                  arith,
                  text_lookup-text_insert new_acc new_acc uid rest,
                  eq_iff new_acc new_acc,
                );
                lost = λ apart. ground (
                  arith,
                  text_lookup-text_insert new_acc acc uid rest,
                  text_lookup-text_delete acc acc s.acc2uid,
                  eq_iff acc acc,
                  eq_iff new_acc acc,
                  apart,
                );
              },
            ),
      )

  -- AddToUid2Token of a uid that was added before under another account, none of the strings empty:
  -- the token is of the new account, and yet both accounts lead to the uid.
  pub add_to_uid2token_twice :
      (now later : ℤ) (uid acc new_acc token new_token : String) (playerid : ℤ) (conn : Option Conn)
      (s : LoginTokenMgr Conn)
      → uid ≢ ""
      → acc ≢ ""
      → new_acc ≢ ""
      → token ≢ ""
      → new_token ≢ ""
      → acc ≢ new_acc
      → let first = add_to_uid2token now uid acc token playerid conn s in
        let q = add_to_uid2token later uid new_acc new_token playerid conn first in
        ((t : LoginTokenInfo Conn) × (get_token_by_uid uid q ≡ some t) × (t.account ≡ new_acc))
        × (get_uid_by_account new_acc q ≡ uid)
        × (get_uid_by_account acc q ≡ uid)
  unfolding add_to_uid2token save_redis_login_token get_token_by_uid get_uid_by_account
  add_to_uid2token_twice now later uid acc new_acc token new_token playerid conn s u a n t m apart =
      let eu : str_eq uid "" ≡ false = ground (arith, u, eq_iff uid "") in
      let ea : str_eq acc "" ≡ false = ground (arith, a, eq_iff acc "") in
      let en : str_eq new_acc "" ≡ false = ground (arith, n, eq_iff new_acc "") in
      let et : str_eq token "" ≡ false = ground (arith, t, eq_iff token "") in
      let em : str_eq new_token "" ≡ false = ground (arith, m, eq_iff new_token "") in
      let ue : str_eq "" uid ≡ false = ground (arith, u, eq_iff "" uid) in
      let ep : str_eq new_acc acc ≡ false = ground (arith, apart, eq_iff new_acc acc) in
      let new : LoginTokenInfo Conn = record {
        account = new_acc;
        token = new_token;
        playerid = playerid;
        create_time = later;
        login_server = conn;
      } in
      rw (eu, ea, en, et, em, ue)
        (
          (new, text_lookup-text_insert uid uid new _ ∙ ground (arith, eq_iff uid uid), refl),
          ground (
            arith,
            text_lookup-text_insert new_acc new_acc uid (text_insert acc uid s.acc2uid),
            eq_iff new_acc new_acc,
          ),
          ground (
            arith,
            text_lookup-text_insert new_acc acc uid (text_insert acc uid s.acc2uid),
            text_lookup-text_insert acc acc uid s.acc2uid,
            eq_iff acc acc,
            ep,
          ),
        )
