-- ===== src/LoginToken/Steps.antt =====
-- The steps of the manager keep accounts and uids named by each other.
use Prim.Native.String.{String}
use text.Mathlib.Text.{◌==◌ as str_eq}
use text.Mathlib.TextEquality.{eq_iff}
use ih_server.Base.{
  ℤ, Option, none, some, Bool, Bool-cases, Option-cases, inl, inr, ◌≡◌, ap, arith, text_lookup,
  text_insert, text_delete, text_lookup-text_insert, text_lookup-text_delete,
}
use ih_server.LoginToken.{
  LoginTokenInfo, LoginTokenMgr, init, add_to_uid2token, bind_new_account, remove_from_uid2token,
  set_token,
}
use ih_server.LoginToken.Linked.{Linked, Fits, init-Linked, add-Linked, renew-Linked, remove-Linked}

module _ {Conn : Type 0} where
  -- What BindNewAccount leaves, where it does not fail.
  abbrev bound :
      String → String → String → LoginTokenInfo Conn → LoginTokenMgr Conn → LoginTokenMgr Conn
  bound uid acc new_acc old s = record s {
    uid2token = text_insert uid (record old { account = new_acc }) s.uid2token;
    acc2uid = text_insert new_acc uid (text_delete acc s.acc2uid);
  }

  bound-Linked :
      (uid acc new_acc : String) (old : LoginTokenInfo Conn) (s : LoginTokenMgr Conn)
      → text_lookup uid s.uid2token ≡ some old
      → old.account ≡ acc
      → text_lookup new_acc s.acc2uid ≡ none
      → Linked s
      → Linked (bound uid acc new_acc old s)
  bound-Linked uid acc new_acc old s here is_old free i =
      let new : LoginTokenInfo Conn = record old { account = new_acc } in
      let rest = text_delete acc s.acc2uid in
      let named : text_lookup acc s.acc2uid ≡ some uid = rw (← is_old) (i.back uid old here) in
      record {
        forth = λ a u h.
            let at_a = text_lookup-text_insert new_acc a uid rest in
            let rest_a = text_lookup-text_delete acc a s.acc2uid in
            let at_u = text_lookup-text_insert uid u new s.uid2token in
            elim (Bool-cases (str_eq new_acc a)) [
              | inl is_new ↦ (
                new,
                ground (arith, at_a, at_u, h, is_new, eq_iff uid u),
                ground (arith, eq_iff new_acc a, is_new),
              )
              | inr older ↦
                  let (t, t_at, is_t) = i.forth a u (ground (arith, at_a, rest_a, h, older)) in
                  elim (Bool-cases (str_eq uid u)) [
                    | inl is_uid ↦
                        let is_t' : old ≡ t = ground (arith, here, t_at, is_uid, eq_iff uid u) in
                        let acc_t = ap (λ (x : LoginTokenInfo Conn). x.account) is_t' in
                        absurd (
                          ground (arith, at_a, rest_a, h, older, is_old, acc_t, is_t, eq_iff acc a))
                    | inr apart ↦ (t, ground (arith, at_u, apart, t_at), is_t)
                  ]
            ];
        back = λ u t h.
            let at_a = text_lookup-text_insert new_acc t.account uid rest in
            let rest_a = text_lookup-text_delete acc t.account s.acc2uid in
            let at_u = text_lookup-text_insert uid u new s.uid2token in
            elim (Bool-cases (str_eq uid u)) [
              | inl is_uid ↦
                  let is_new : new ≡ t = ground (arith, at_u, h, is_uid) in
                  let acc_new : new_acc ≡ t.account =
                    ap (λ (x : LoginTokenInfo Conn). x.account) is_new in
                  ground (arith, at_a, acc_new, eq_iff new_acc t.account, eq_iff uid u, is_uid)
              | inr apart ↦
                  let older = i.back u t (ground (arith, at_u, h, apart)) in
                  ground (
                    arith,
                    at_a,
                    rest_a,
                    older,
                    free,
                    named,
                    apart,
                    eq_iff new_acc t.account,
                    eq_iff acc t.account,
                    eq_iff uid u,
                  )
            ];
      }

  bind-Linked :
      (uid acc new_acc : String) (s t : LoginTokenMgr Conn) (r : Bool)
      → text_lookup new_acc s.acc2uid ≡ none
      → bind_new_account uid acc new_acc s ≡ some (t, r)
      → Linked s
      → Linked t
  unfolding bind_new_account
  bind-Linked uid acc new_acc s t r free h i = elim (Option-cases (text_lookup uid s.uid2token)) [
    | inl none_at ↦ absurd (ground (arith, h, none_at))
    | inr (old, here) ↦ elim (Bool-cases (str_eq old.account acc)) [
      | inr other ↦ let same : s ≡ t = ground (arith, h, here, other) in rw (← same) i
      | inl is_acc ↦
          let is_old : old.account ≡ acc = ground (arith, eq_iff old.account acc, is_acc) in
          let done : bound uid acc new_acc old s ≡ t = ground (arith, h, here, is_acc) in
          rw (← done) (bound-Linked uid acc new_acc old s here is_old free i)
    ]
  ]

  -- The steps of the manager after Init: additions that fit, bindings to an account that has no uid,
  -- removals, and new tokens.
  pub data Step (s : LoginTokenMgr Conn) : LoginTokenMgr Conn → Type 0 where
    adds :
        (now : ℤ) (uid acc token : String) (playerid : ℤ) (conn : Option Conn)
        → Fits uid acc s
        → Step s (add_to_uid2token now uid acc token playerid conn s)
    binds :
        (uid acc new_acc : String) (r : Bool) (t : LoginTokenMgr Conn)
        → text_lookup new_acc s.acc2uid ≡ none
        → bind_new_account uid acc new_acc s ≡ some (t, r)
        → Step s t
    removes : (uid : String) → Step s (remove_from_uid2token uid s)
    renews :
        (now : ℤ) (uid token : String) (playerid : ℤ)
        → Step s (set_token now uid token playerid s).0

  pub data Reached : LoginTokenMgr Conn → Type 0 where
    start : Reached init
    then_step : {s t : LoginTokenMgr Conn} → Reached s → Step s t → Reached t

  Step-Linked : {s t : LoginTokenMgr Conn} → Step s t → Linked s → Linked t
  Step-Linked {s} (adds now uid acc token playerid conn f) i =
      add-Linked now uid acc token playerid conn s f i
  Step-Linked {s} {t} (binds uid acc new_acc r _ free h) i =
      bind-Linked uid acc new_acc s t r free h i
  Step-Linked {s} (removes uid) i = remove-Linked uid s i
  Step-Linked {s} (renews now uid token playerid) i = renew-Linked now uid token playerid s i

  -- From Init on, through additions whose uid and account have no other partner, bindings to accounts
  -- without a uid, removals and new tokens, the two maps agree: an account leads to a uid whose token
  -- is of that account, and a uid is found by the account of its token.
  pub Reached-Linked : {s : LoginTokenMgr Conn} → Reached s → Linked s
  Reached-Linked start = init-Linked
  Reached-Linked (then_step r h) = Step-Linked h (Reached-Linked r)
