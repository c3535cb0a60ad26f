-- ===== src/Player/Resource/Exp.antt =====
-- add_exp: the level and the experience of a player after an addition.
use ih_server.Base.{ℤ, pos, pos_part, ◌+◌, ◌+ℤ◌, ◌≤ℤ◌, IsInt32, ◌≡◌, arith, =?-iff, true}
use ih_server.Player.Env.{Env}
use ih_server.Player.State.{Player, send}
use ih_server.Player.Task.{reach_level}
use ih_server.Player.Task.Frame.{task_update-OnlyTasks}
use ih_server.Player.Resource.{add_exp, add_points, level_up}
use ih_server.Player.Resource.Money.{Spends, saturate, add_points-saturate, level_up-Spends}

saturate_bounds : (z : ℤ) → (pos 0 ≤ℤ saturate z) × IsInt32 (saturate z)
saturate_bounds z = ground arith

-- The level and the experience that add_exp leaves are those of its loop.
module _ (e : Env) (add : ℤ) (p : Player) (n : pos 0 ≤ℤ add) where
  climbed : ℤ × ℤ
  climbed =
      level_up (pos_part (add_points add p.exp) + 1) e.levelup_table p.lvl (add_points add p.exp)

  add_exp_fields : ((add_exp e add p).lvl ≡ climbed.0) × ((add_exp e add p).exp ≡ climbed.1)
  unfolding add_exp climbed send
  add_exp_fields =
      let q = record p { exp = climbed.1; b_base_prop_chg = true } in
      ground (
        arith,
        =?-iff climbed.0 p.lvl,
        =?-iff climbed.1 p.exp,
        task_update-OnlyTasks e reach_level true climbed.0 (pos 1)
            (record q { lvl = climbed.0; row_level = climbed.0; b_base_prop_chg = true }),
        task_update-OnlyTasks e reach_level true climbed.0 (pos 1)
            (record p { lvl = climbed.0; row_level = climbed.0; b_base_prop_chg = true }),
      )

  -- add_exp turns the sum of the experience, cut off at MaxInt32, into levels that the table prices,
  -- until the rest buys no further level. The amount and the experience before are int32s and not
  -- negative.
  pub add_exp-Spends :
      IsInt32 add
      → IsInt32 p.exp
      → pos 0 ≤ℤ p.exp
      → Spends e.levelup_table p.lvl
          (saturate (p.exp +ℤ add))
          ((add_exp e add p).lvl, (add_exp e add p).exp)
  unfolding climbed
  add_exp-Spends h k m =
      let same = add_points-saturate add p.exp h k n m in
      let b = saturate_bounds (p.exp +ℤ add) in
      rw (add_exp_fields.0, add_exp_fields.1, same)
        (level_up-Spends _ e.levelup_table p.lvl (saturate (p.exp +ℤ add)) b.0 b.1 (omega arith))
