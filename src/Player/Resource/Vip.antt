-- ===== src/Player/Resource/Vip.antt =====
-- add_vip_exp: the VIP level that an amount of VIP experience reaches.
use ih_server.Base.{
  ℕ, zero, suc, ◌+◌, ◌≤◌, ◌<◌, ℤ, pos, pos_part, ◌+ℤ◌, ◌+₃₂◌, wrap32-eq, ◌≤ℤ◌, ◌<ℤ◌, ◌<?◌, ◌≤?◌,
  =?-iff, Option, none, some, Option-cases, Bool-cases, inl, inr, ◌||◌, true, ltb, ◌≡◌, ◌⊎◌, refl,
  ◌∙◌, arith,
}
use ih_server.Player.Env.{Env, VipData}
use ih_server.Player.State.{Player, send}
use ih_server.Player.Task.{reach_vip_n_level}
use ih_server.Player.Task.Update.{task_update}
use ih_server.Player.Task.Frame.{task_update-OnlyTasks}
use ih_server.Player.Resource.{add_points, vip_level_up, vip_exp_id, add_item, del_item}
use ih_server.Player.Resource.ById.{get_resource, set_resource, set_item, add_vip_exp}

-- No row of the table is above a level.
abbrev pub RowsUpTo : ℕ → (ℤ → Option VipData) → Type 0
RowsUpTo n table = (l : ℤ) (v : VipData) → table l ≡ some v → l ≤ℤ pos n

-- A level that is reached: the row of the next one is missing, has no price or costs more.
abbrev pub Reached : (ℤ → Option VipData) → ℤ → ℤ → Type 0
Reached table exp l =
    (table (l +₃₂ pos 1) ≡ none)
    ⊎ ((v : VipData) × (table (l +₃₂ pos 1) ≡ some v) × ((v.exp ≤ℤ pos 0) ⊎ (exp <ℤ v.exp)))

-- Each of the levels above `l` up to `m` has a row, with a price that the experience covers.
abbrev pub Earned : (ℤ → Option VipData) → ℤ → ℕ → ℕ → Type 0
Earned table exp l m =
    (k : ℕ)
    → l < k
    → k ≤ m
    → (v : VipData) × (table (pos k) ≡ some v) × (pos 0 <ℤ v.exp) × (v.exp ≤ℤ exp)

next_sum : (l : ℕ) → pos l +ℤ pos 1 ≡ pos (suc l)
unfolding ◌+ℤ◌
next_sum l = ground arith

next_exact : (l : ℕ) → l < 2147483647 → pos l +₃₂ pos 1 ≡ pos (suc l)
unfolding ◌+₃₂◌
next_exact l h = rw (next_sum l) (wrap32-eq (pos (suc l)) (omega arith, omega arith))

vip_level_up-Reached :
    (n : ℕ) (table : ℤ → Option VipData) (exp : ℤ) (fuel l : ℕ)
    → RowsUpTo n table
    → n < 2147483647
    → l ≤ n
    → n < l + fuel
    → (m : ℕ) × (vip_level_up fuel table exp (pos l) ≡ pos m)
      × (l ≤ m)
      × (m ≤ n)
      × Earned table exp l m
      × Reached table exp (pos m)
unfolding vip_level_up
vip_level_up-Reached n table exp zero l rows b le lt = absurd (omega arith)
vip_level_up-Reached n table exp (suc fuel) l rows b le lt =
    elim (Option-cases (table (pos l +₃₂ pos 1))) [
      | inl e ↦ (
        l,
        rw (e, vip_level_up) refl,
        omega arith,
        le,
        λ k above below. absurd (omega (arith, above, below)),
        inl e,
      )
      | inr (v, e) ↦
          let next = next_exact l (omega arith) in
          elim (Bool-cases (v.exp ≤? pos 0 || exp <? v.exp)) [
            | inl stop ↦ (
              l,
              rw (e, vip_level_up, stop) refl,
              omega arith,
              le,
              λ k above below. absurd (omega (arith, above, below)),
              inr (v, e, ground arith),
            )
            | inr go ↦
                let within = rows (pos (suc l)) v (rw next at e) in
                let (m, is_m, up, top, earned, r) =
                  vip_level_up-Reached n table exp fuel (suc l) rows b (omega arith)
                    (omega arith) in
                (
                  m,
                  rw (e, vip_level_up, go, next) is_m,
                  omega arith,
                  top,
                  λ k above below. elim (Bool-cases (ltb (suc l) k)) [
                    | inl later ↦ earned k (ground (arith, later)) below
                    | inr first ↦
                        let is_k : k ≡ suc l = ground (arith, first, above) in
                        rw is_k (v, rw next at e, ground (arith, go), ground (arith, go))
                  ],
                  r,
                )
          ]
    ]

set_resource-vip_lvl :
    (e : Env) (id n : ℤ) (p : Player) → (set_resource e id n p).0.vip_lvl ≡ p.vip_lvl
unfolding set_resource set_item add_item del_item
set_resource-vip_lvl e id n p = ground arith

add_vip_exp-vip_lvl :
    (e : Env) (add : ℤ) (p : Player)
    → pos 0 <ℤ add
    → p.vip_lvl <ℤ e.vip_table_len
    → (add_vip_exp e add p).vip_lvl
      ≡ vip_level_up
          (pos_part e.vip_table_len + 1)
          e.vip_table
          (add_points add (get_resource p vip_exp_id))
          p.vip_lvl
unfolding add_vip_exp send
add_vip_exp-vip_lvl e add p h k =
    let exp = add_points add (get_resource p vip_exp_id) in
    let level = vip_level_up (pos_part e.vip_table_len + 1) e.vip_table exp p.vip_lvl in
    let q = record p { vip_lvl = level; b_base_prop_chg = true } in
    let t = task_update e reach_vip_n_level true level (pos 1) q in
    ground (
      arith,
      =?-iff level p.vip_lvl,
      set_resource-vip_lvl e vip_exp_id exp p,
      set_resource-vip_lvl e vip_exp_id exp t,
      task_update-OnlyTasks e reach_vip_n_level true level (pos 1) q,
    )

-- add_vip_exp, of a positive amount and below the last level, raises the VIP level to one whose next
-- level is missing, has no price or costs more than the sum of the experience, which it cuts off at
-- MaxInt32; the level never falls and stays within the table, and each level that is gained has a
-- positive price that the sum covers. The rows of the table are those up to
-- its length, which an int32 holds with one more, and the level is not negative.
pub add_vip_exp-Reached :
    (e : Env) (add : ℤ) (n l : ℕ) (p : Player)
    → pos 0 <ℤ add
    → p.vip_lvl ≡ pos l
    → l < n
    → e.vip_table_len ≡ pos n
    → n < 2147483647
    → RowsUpTo n e.vip_table
    → (m : ℕ) × ((add_vip_exp e add p).vip_lvl ≡ pos m)
      × (l ≤ m)
      × (m ≤ n)
      × Earned e.vip_table (add_points add (get_resource p vip_exp_id)) l m
      × Reached e.vip_table (add_points add (get_resource p vip_exp_id)) (pos m)
unfolding get_resource
add_vip_exp-Reached e add n l p h at lt len fits rows =
    let exp = add_points add (get_resource p vip_exp_id) in
    let (m, is_m, up, top, earned, r) =
      vip_level_up-Reached n e.vip_table exp (n + 1) l rows fits (omega arith) (omega arith) in
    (
      m,
      add_vip_exp-vip_lvl e add p h (rw (at, len) (omega arith)) ∙ rw (at, len) is_m,
      up,
      top,
      earned,
      r,
    )
