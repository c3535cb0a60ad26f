-- ===== src/LoginToken/Linked.antt =====
-- Accounts and uids name each other.
use Prim.Native.String.{String}
use text.Mathlib.Text.{◌==◌ as str_eq}
use text.Mathlib.TextEquality.{eq_iff}
use ih_server.Base.{
  ℤ, List, Option, some, ◌||◌, Bool-cases, Option-cases, inl, inr, ◌≡◌, refl, sym, ap, ◌∙◌, arith,
  text_lookup, text_insert, text_lookup-text_insert, text_lookup-text_delete,
}
use ih_server.LoginToken.{
  RedisLoginTokenInfo, LoginTokenInfo, LoginTokenMgr, init, add_to_uid2token, remove_from_uid2token,
  set_token, save_redis_login_token,
}

module _ {Conn : Type 0} where
  -- Each account leads to a uid whose token is of that account, and each uid is found by the account
  -- of its token.
  pub record Linked (s : LoginTokenMgr Conn) : Type 0 where
    pub forth :
        (acc uid : String)
        → text_lookup acc s.acc2uid ≡ some uid
        → (t : LoginTokenInfo Conn) × (text_lookup uid s.uid2token ≡ some t) × (t.account ≡ acc)
    pub back :
        (uid : String) (t : LoginTokenInfo Conn)
        → text_lookup uid s.uid2token ≡ some t
        → text_lookup t.account s.acc2uid ≡ some uid

  -- A uid that has no other account than this one, and this account no other uid.
  pub record Fits (uid acc : String) (s : LoginTokenMgr Conn) : Type 0 where
    pub one_account :
        (t : LoginTokenInfo Conn) → text_lookup uid s.uid2token ≡ some t → t.account ≡ acc
    pub one_uid : (v : String) → text_lookup acc s.acc2uid ≡ some v → v ≡ uid

  pub init-Linked : Linked init
  unfolding init text_lookup
  init-Linked = record {
    forth = λ acc uid h. absurd (ground (arith, h));
    back = λ uid t h. absurd (ground (arith, h));
  }

  pub add-Linked :
      (now : ℤ) (uid acc token : String) (playerid : ℤ) (conn : Option Conn)
      (s : LoginTokenMgr Conn)
      → Fits uid acc s
      → Linked s
      → Linked (add_to_uid2token now uid acc token playerid conn s)
  unfolding add_to_uid2token save_redis_login_token
  add-Linked now uid acc token playerid conn s f i =
      elim (Bool-cases (str_eq uid "" || str_eq acc "" || str_eq token "")) [
        | inl empty ↦ rw empty i
        | inr full ↦
            let new : LoginTokenInfo Conn = record {
              account = acc;
              token = token;
              playerid = playerid;
              create_time = now;
              login_server = conn;
            } in
            rw full (record {
              forth = λ a u h.
                  let at_a = text_lookup-text_insert acc a uid s.acc2uid in
                  let at_u = text_lookup-text_insert uid u new s.uid2token in
                  elim (Bool-cases (str_eq acc a)) [
                    | inl is_acc ↦ (
                      new,
                      ground (arith, at_a, at_u, h, is_acc, eq_iff uid u),
                      ground (arith, eq_iff acc a, is_acc),
                    )
                    | inr other ↦
                        let (t, t_at, is_t) = i.forth a u (ground (arith, at_a, h, other)) in
                        elim (Bool-cases (str_eq uid u)) [
                          | inl is_uid ↦ absurd (
                              ground (
                                arith,
                                f.one_account t,
                                t_at,
                                is_t,
                                is_uid,
                                other,
                                eq_iff uid u,
                                eq_iff acc a,
                              ))
                          | inr apart ↦ (t, ground (arith, at_u, apart, t_at), is_t)
                        ]
                  ];
              back = λ u t h.
                  let at_a = text_lookup-text_insert acc t.account uid s.acc2uid in
                  let at_u = text_lookup-text_insert uid u new s.uid2token in
                  elim (Bool-cases (str_eq uid u)) [
                    | inl is_uid ↦
                        let is_new : new ≡ t = ground (arith, at_u, h, is_uid) in
                        let is_acc : acc ≡ t.account =
                          ap (λ (x : LoginTokenInfo Conn). x.account) is_new in
                        ground (arith, at_a, is_acc, eq_iff acc t.account, eq_iff uid u, is_uid)
                    | inr apart ↦
                        let old = i.back u t (ground (arith, at_u, h, apart)) in
                        elim (Bool-cases (str_eq acc t.account)) [
                          | inl is_acc ↦ absurd (
                              ground (
                                arith,
                                f.one_uid u,
                                old,
                                is_acc,
                                apart,
                                eq_iff uid u,
                                eq_iff acc t.account,
                              ))
                          | inr other ↦ ground (arith, at_a, other, old)
                        ]
                  ];
            })
      ]

  -- A token that is written to its uid again, of the same account.
  rewrite-Linked :
      (uid : String) (old new : LoginTokenInfo Conn) (s : LoginTokenMgr Conn)
      (posted : List (String × RedisLoginTokenInfo))
      → text_lookup uid s.uid2token ≡ some old
      → new.account ≡ old.account
      → Linked s
      → Linked (record s { uid2token = text_insert uid new s.uid2token; posted = posted })
  rewrite-Linked uid old new s posted here same i = record {
    forth = λ a u h.
        let (t, t_at, is_t) = i.forth a u h in
        let at_u = text_lookup-text_insert uid u new s.uid2token in
        elim (Bool-cases (str_eq uid u)) [
          | inl is_uid ↦
              let is_u : uid ≡ u = ground (arith, eq_iff uid u, is_uid) in
              let is_old : old ≡ t = ground (arith, here, t_at, is_u) in
              let acc_old : old.account ≡ t.account =
                ap (λ (x : LoginTokenInfo Conn). x.account) is_old in
              (new, ground (arith, at_u, is_uid), same ∙ acc_old ∙ is_t)
          | inr apart ↦ (t, ground (arith, at_u, apart, t_at), is_t)
        ];
    back = λ u t h.
        let at_u = text_lookup-text_insert uid u new s.uid2token in
        elim (Bool-cases (str_eq uid u)) [
          | inl is_uid ↦
              let is_u : uid ≡ u = ground (arith, eq_iff uid u, is_uid) in
              let is_new : new ≡ t = ground (arith, at_u, h, is_uid) in
              let acc_new : t.account ≡ old.account =
                sym (ap (λ (x : LoginTokenInfo Conn). x.account) is_new) ∙ same in
              rw (acc_new, ← is_u) (i.back uid old here)
          | inr apart ↦ i.back u t (ground (arith, at_u, h, apart))
        ];
  }

  pub renew-Linked :
      (now : ℤ) (uid token : String) (playerid : ℤ) (s : LoginTokenMgr Conn)
      → Linked s
      → Linked (set_token now uid token playerid s).0
  unfolding set_token save_redis_login_token
  renew-Linked now uid token playerid s i = elim (Option-cases (text_lookup uid s.uid2token)) [
    | inl none_at ↦ rw (set_token, none_at) i
    | inr (old, here) ↦ rw (set_token, here) (rewrite-Linked uid old _ s _ here refl i)
  ]

  -- A uid and the account of its token leave both maps.
  pub remove-Linked :
      (uid : String) (s : LoginTokenMgr Conn) → Linked s → Linked (remove_from_uid2token uid s)
  unfolding remove_from_uid2token
  remove-Linked uid s i = elim (Bool-cases (str_eq "" uid)) [
    | inl empty ↦ rw empty i
    | inr full ↦ elim (Option-cases (text_lookup uid s.uid2token)) [
      | inl none_at ↦ rw (full, none_at) i
      | inr (d, here) ↦
          let named = i.back uid d here in
          rw (full, here)
            (record {
              forth = λ a u h.
                  let at_a = text_lookup-text_delete d.account a s.acc2uid in
                  let at_u = text_lookup-text_delete uid u s.uid2token in
                  let (t, t_at, is_t) = i.forth a u (ground (arith, at_a, h)) in
                  elim (Bool-cases (str_eq uid u)) [
                    | inl is_uid ↦
                        let is_d : d ≡ t = ground (arith, here, t_at, is_uid, eq_iff uid u) in
                        let acc_d = ap (λ (x : LoginTokenInfo Conn). x.account) is_d in
                        absurd (ground (arith, at_a, h, acc_d, is_t, eq_iff d.account a))
                    | inr apart ↦ (t, ground (arith, at_u, apart, t_at), is_t)
                  ];
              back = λ u t h.
                  let at_a = text_lookup-text_delete d.account t.account s.acc2uid in
                  let at_u = text_lookup-text_delete uid u s.uid2token in
                  let old = i.back u t (ground (arith, at_u, h)) in
                  ground
                    (arith, at_a, at_u, h, old, named, eq_iff d.account t.account, eq_iff uid u);
            })
    ]
  ]
