-- ===== src/Player/Talent.antt =====
-- src/hall_server/player_talent.go: talents are learnt level by level, and a page is reset at once.
pub mod Learn
pub mod Reset
use ih_server.Base.{
  ℕ, zero, suc, ℤ, pos, pos_part, ◌+₃₂◌, neg32, ◌<?◌, ◌≤?◌, ◌=?◌, List, [], ◌∷◌, ◌++◌, Option, none,
  some, Bool, true, false, ◌||◌, not, if◌then◌else◌, lookup, insert, delete, has_index, Dict, map,
  length,
}
use ih_server.Player.Env.{Env, TalentData}
use ih_server.Player.State.{
  Player, Ret, success, failure, talent_not_found, talent_up_need_prev_talent,
  talent_up_not_enough_resource, diamond_not_enough, talent_up,
  talent_reset as talent_reset_response, send, value_or_zero, pairs, sum_rewards,
}
use ih_server.Player.Resource.{add_diamond}
use ih_server.Player.Resource.ById.{add_pairs, check_pairs, cost_pairs}
use ih_server.Player.Sign.{reward_pairs}

-- Talents.GetLevel, without its second value
abbrev pub level_of : Player → ℤ → ℤ
level_of p id = value_or_zero (lookup id p.talents)

-- Whether the talent that another one needs is there and high enough.
unfoldable pub has_prev : TalentData → Player → Bool
has_prev t p =
    if pos 0 <? t.prev_skill_cond
    then (elim (lookup t.prev_skill_cond p.talents) [
      | none ↦ false
      | some l ↦ not (l <? t.pre_skill_lev_cond)
    ])
    else true

-- up_talent. The talents are stored by Add at level 0 and by SetLevel above it.
pub store_level : ℤ → ℤ → Player → Player
store_level id level p =
    if level =? pos 0
    then (if has_index id p.talents
        then p
        else record p { talents = insert id (level +₃₂ pos 1) p.talents })
    else if has_index id p.talents
    then record p { talents = insert id (level +₃₂ pos 1) p.talents }
    else p

pub up_talent : Env → ℤ → Player → Player × Ret
up_talent e id p =
    let level = level_of p id in
    elim (e.talent_table id (level +₃₂ pos 1)) [
      | none ↦ (p, talent_not_found)
      | some t ↦
          if t.can_learn ≤? pos 0
          then (p, failure)
          else if not (has_prev t p)
          then (p, talent_up_need_prev_talent)
          else if not (check_pairs (pairs t.upgrade_cost) p)
          then (p, talent_up_not_enough_resource)
          else (
            send (talent_up id (level +₃₂ pos 1))
                (store_level id level (cost_pairs e (pairs t.upgrade_cost) p)),
            success,
          )
    ]

-- One round of the inner loop of talent_reset, at a level of a talent: what is returned, and the
-- talents without it.
pub reset_level : Env → ℤ → ℤ → ℤ → Player × Dict ℤ → Player × Dict ℤ
reset_level e tag id l (p, returned) = elim (e.talent_table id l) [
  | none ↦ (p, returned)
  | some t ↦
      if not (t.tag =? tag)
      then (p, returned)
      else let q = add_pairs e (pairs t.upgrade_cost) p in
        (record q { talents = delete id q.talents }, sum_rewards (pairs t.upgrade_cost) returned)
]

-- The inner loop, from a level, over the levels that are left.
pub reset_levels : Env → ℤ → ℤ → ℕ → ℤ → Player × Dict ℤ → Player × Dict ℤ
reset_levels e tag id zero l s = s
reset_levels e tag id (suc n) l s = reset_levels e tag id n (l +₃₂ pos 1) (reset_level e tag id l s)

-- The outer loop, over GetAllIndex.
pub reset_talents : Env → ℤ → List ℤ → Player × Dict ℤ → Player × Dict ℤ
reset_talents e tag [] s = s
reset_talents e tag (id ∷ ids) s =
    reset_talents e tag ids (reset_levels e tag id (pos_part (level_of (s.0) id)) (pos 1) s)

abbrev pub keys : Dict ℤ → List ℤ
keys = map λ r. r.0

-- talent_reset
pub talent_reset : Env → ℤ → Player → Player × Ret
talent_reset e tag p =
    if pos (length p.talents) ≤? pos 0
    then (p, failure)
    else if p.diamond <? e.talent_reset_cost_diamond
    then (p, diamond_not_enough)
    else let (q, returned) = reset_talents e tag (keys p.talents) (p, []) in
      (
        send (talent_reset_response tag returned e.talent_reset_cost_diamond)
            (add_diamond (neg32 e.talent_reset_cost_diamond) q),
        success,
      )
