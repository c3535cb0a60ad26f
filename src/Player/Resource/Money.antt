-- ===== src/Player/Resource/Money.antt =====
-- add_gold, add_diamond and the loop of add_exp: the arithmetic of int32 behind them.
use ih_server.Base.{
  ℤ, pos, negsuc, ◌+ℤ◌, ◌+₃₂◌, ◌≤ℤ◌, ◌<?◌, max_int32, ℕ, zero, suc, ◌<◌, pos_part, ◌-ℤ◌, ◌-₃₂◌,
  -ℤ_parts, parts_disjoint, wrap32-eq, ◌<ℤ◌, Option, none, some, ◌⊎◌, inl, inr, refl, Bool-cases,
  ◌≤?◌, ◌||◌, Option-cases, IsInt32, wrap32, if◌then◌else◌, ◌≡◌, arith,
}
use ih_server.Player.Resource.{add_money, add_points, add_gold, add_diamond, level_up}
use ih_server.Player.State.{Player, send}

-- An exact sum, cut off at zero and at MaxInt32.
abbrev pub saturate : ℤ → ℤ
saturate z = if z <? pos 0 then pos 0 else if max_int32 <? z then max_int32 else z

pub add_money-saturate :
    (add old : ℤ)
    → IsInt32 add
    → IsInt32 old
    → pos 0 ≤ℤ old
    → add_money add old ≡ saturate (old +ℤ add)
unfolding add_money ◌+₃₂◌ wrap32 ◌+ℤ◌
add_money-saturate (pos a) (pos b) h k n = ground arith
add_money-saturate (negsuc a) (pos b) h k n = ground arith
add_money-saturate a (negsuc b) h k n = absurd (omega arith)

pub add_points-saturate :
    (add old : ℤ)
    → IsInt32 add
    → IsInt32 old
    → pos 0 ≤ℤ add
    → pos 0 ≤ℤ old
    → add_points add old ≡ saturate (old +ℤ add)
unfolding add_points ◌+₃₂◌ wrap32 ◌+ℤ◌
add_points-saturate (pos a) (pos b) h k m n = ground arith
add_points-saturate (negsuc a) b h k m n = absurd (omega arith)
add_points-saturate (pos a) (negsuc b) h k m n = absurd (omega arith)

-- add_gold and add_diamond are exact within the int32s that are not negative and saturate outside
-- them, and neither changes the other: where the amount is an int32, and gold and diamonds are int32s
-- that are not negative.
pub money_saturates :
    (add : ℤ) (p : Player)
    → IsInt32 add
    → IsInt32 p.gold
    → IsInt32 p.diamond
    → pos 0 ≤ℤ p.gold
    → pos 0 ≤ℤ p.diamond
    → ((add_gold add p).gold ≡ saturate (p.gold +ℤ add))
      × ((add_diamond add p).diamond ≡ saturate (p.diamond +ℤ add))
      × ((add_gold add p).diamond ≡ p.diamond)
      × ((add_diamond add p).gold ≡ p.gold)
unfolding add_gold add_diamond send
money_saturates add p h g d k l = (
  add_money-saturate add p.gold h g k,
  ground (arith, add_money-saturate add p.diamond h d l),
  refl,
  ground arith,
)

-- The levels that an amount of experience buys: each costs what the table says of it.
pub data Climbs (table : ℤ → Option ℤ) : ℤ → ℤ → ℤ → ℤ → Type 0 where
  stay : (l x : ℤ) → Climbs table l x l x
  climb :
      (l x need z m y : ℤ)
      → table l ≡ some need
      → pos 0 <ℤ need
      → need ≤ℤ x
      → z ≡ x -ℤ need
      → Climbs table (l +₃₂ pos 1) z m y
      → Climbs table l x m y

-- No further level can be bought.
abbrev IsSpent : (ℤ → Option ℤ) → ℤ → ℤ → Type 0
IsSpent table l x =
    (table l ≡ none) ⊎ ((need : ℤ) × (table l ≡ some need) × ((need ≤ℤ pos 0) ⊎ (x <ℤ need)))

minus_exact : (x n : ℤ) → pos 0 ≤ℤ n → n ≤ℤ x → IsInt32 x → x -₃₂ n ≡ x -ℤ n
unfolding ◌-₃₂◌
minus_exact x n h k i = wrap32-eq (x -ℤ n) (omega (arith, -ℤ_parts x n, parts_disjoint (x -ℤ n)))

-- What the loop of add_exp returns from a level and an amount: levels that were paid for, until no
-- further level can be.
abbrev pub Spends : (ℤ → Option ℤ) → ℤ → ℤ → ℤ × ℤ → Type 0
Spends table l x r = Climbs table l x r.0 r.1 × IsSpent table r.0 r.1

pub level_up-Spends :
    (fuel : ℕ) (table : ℤ → Option ℤ) (l x : ℤ)
    → pos 0 ≤ℤ x
    → IsInt32 x
    → pos_part x < fuel
    → Spends table l x (level_up fuel table l x)
unfolding level_up
level_up-Spends zero table l x n i f = absurd (omega arith)
level_up-Spends (suc fuel) table l x n i f = elim (Option-cases (table l)) [
  | inl e ↦ rw (e, level_up) (stay l x, inl e)
  | inr (need, e) ↦ elim (Bool-cases (need ≤? pos 0 || x <? need)) [
    | inl stop ↦ rw (e, level_up) (rw stop (stay l x, inr (need, e, ground arith)))
    | inr go ↦
        let paid : pos 0 <ℤ need = ground arith in
        let enough : need ≤ℤ x = ground arith in
        let exact = minus_exact x need (omega arith) enough i in
        let rest =
          level_up-Spends fuel table (l +₃₂ pos 1) (x -₃₂ need)
            (rw exact (omega (arith, -ℤ_parts x need)))
            (rw exact (omega (arith, -ℤ_parts x need, parts_disjoint (x -ℤ need))))
            (rw exact (omega (arith, -ℤ_parts x need, parts_disjoint (x -ℤ need)))) in
        rw (e, level_up) (rw go (climb l x need _ _ _ e paid enough exact rest.0, rest.1))
  ]
]
