-- ===== src/Player/GoldHand/Touch.antt =====
-- src/hall_server/player_goldhand.go: what a touch of the gold hand pays, costs and uses up.
use ih_server.Base.{ℕ, ℤ, pos, neg32, ◌+₃₂◌, ◌-₃₂◌, ◌<ℤ◌, ◌≤ℤ◌, List, some, get_elem?, set, ◌≡◌}
use ih_server.Player.Env.{Env, GoldHandData}
use ih_server.Player.State.{Player, touch_gold as touch_gold_response}
use ih_server.Player.Resource.{add_money}
use ih_server.Player.GoldHand.{get_left_nums, check_reset, offer, vip_gold, touch_gold}

-- The numbers that a touch finds.
abbrev nums : Env → GoldHandData → Player → List ℤ
nums e row p = (get_left_nums (check_reset e row p).0).1

-- A touch that is allowed: its offer, what it pays and costs, and the number that it uses up.
pub record Touched (e : Env) (t : ℤ) (p q : Player) (row : GoldHandData) (gold diamond : ℤ) (i : ℕ)
    (left : ℤ) : Type 0 where
  pub listed : e.goldhand_table p.lvl ≡ some row
  pub offered : offer row t ≡ some (gold, diamond, i)
  pub some_left : get_elem? (nums e row p) i ≡ some left
  pub positive : pos 0 <ℤ left
  pub affordable : diamond ≤ℤ p.diamond
  pub gold_paid : q.gold ≡ add_money (gold +₃₂ vip_gold e p gold) p.gold
  pub diamond_cost : q.diamond ≡ add_money (neg32 diamond) p.diamond
  pub used : q.gold_hand.left_num ≡ set (nums e row p) i (left -₃₂ pos 1)
