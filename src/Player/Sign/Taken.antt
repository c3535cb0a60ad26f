-- ===== src/Player/Sign/Taken.antt =====
-- The award of the daily sign: when it is taken, and what it pays.
use ih_server.Base.{
  ℤ, pos, ◌+₃₂◌, ◌+ℤ◌, ◌≤ℤ◌, ◌<ℤ◌, ◌≤?◌, ◌=?◌, =?-iff, +ℤ_parts, Option-cases, Bool-cases, inl, inr,
  none, some, ◌||◌, true, not, is_some, ◌≡◌, ◌≢◌, ◌⊎◌, eq_of_parts, arith,
}
use ih_server.Player.Env.{Env, Slice}
use ih_server.Player.Resource.ById.{get_resource, add_resources}
use ih_server.Player.State.{Player, success, send}
use ih_server.Player.Resource.Frame.{add_resources-OnlyWallet}
use ih_server.Player.Resource.Price.{IsSpendable}
use ih_server.Player.Resource.Reward.{IsReward, Room, sum_of, add_resources_exact}
use ih_server.Player.Sign.{reward_pairs, sign_award}

-- An award that is taken: the next index, not above the signs, with a row in the table.
pub record Taken (e : Env) (id : ℤ) (p q : Player) : Type 0 where
  pub in_order : p.sign.award_index +₃₂ pos 1 ≡ id
  pub fresh : p.sign.award_index <ℤ id
  pub earned : p.sign.award_index <ℤ p.sign.signed_index
  pub listed : is_some (e.sign_table id) ≡ true
  pub taken : q.sign ≡ record (p.sign) { award_index = id }
  pub rewarded :
      (l : Slice) × (e.sign_table id ≡ some l)
      × ((j : ℤ) → get_resource q j ≡ get_resource (add_resources e l p) j)

-- Why an award is refused.
abbrev pub Refused : Env → ℤ → Player → Type 0
Refused e id p =
    (id ≤ℤ p.sign.award_index)
    ⊎ (p.sign.award_index +₃₂ pos 1 ≢ id)
    ⊎ (p.sign.signed_index ≤ℤ p.sign.award_index)
    ⊎ (e.sign_table id ≡ none)

pub sign_award-Taken :
    (e : Env) (id : ℤ) (p : Player)
    → let (q, r) = sign_award e id p in
      ((r ≡ success) × Taken e id p q) ⊎ ((r ≢ success) × (q ≡ p) × Refused e id p)
unfolding sign_award send get_resource
sign_award-Taken e id p = elim (Option-cases (e.sign_table id)) [
  | inl missing ↦ inr (λ h. ground arith, ground arith, inr (inr (inr missing)))
  | inr (reward, row) ↦
      let q = add_resources-OnlyWallet e reward p in
      elim (Bool-cases (
        id ≤? p.sign.award_index
        || not (p.sign.award_index +₃₂ pos 1 =? id)
        || p.sign.signed_index ≤? p.sign.award_index)) [
          | inl bad ↦ inr (
            λ h. ground arith,
            ground arith,
            ground (arith, bad, =?-iff (p.sign.award_index +₃₂ pos 1) id),
          )
          | inr good ↦ inl (
            ground arith,
            record {
              in_order = ground (arith, =?-iff (p.sign.award_index +₃₂ pos 1) id);
              fresh = ground arith;
              earned = ground arith;
              listed = ground arith;
              taken = ground (arith, =?-iff (p.sign.award_index +₃₂ pos 1) id, q);
              rewarded = (reward, row, λ j. ground arith);
            },
          )
        ]
]

-- An award that is given: one that is taken, whose reward is added in full.
pub record Given (e : Env) (id : ℤ) (p q : Player) : Type 0 where
  pub taken : Taken e id p q
  pub paid :
      (l : Slice) × (e.sign_table id ≡ some l)
      × ((j : ℤ) → IsSpendable j → get_resource q j ≡ get_resource p j +ℤ sum_of j (reward_pairs l))

-- The reward of an award counts as it comes, and there is room for it.
abbrev pub Payable : Env → ℤ → Player → Type 0
Payable e id p =
    (l : Slice) → e.sign_table id ≡ some l → IsReward e (reward_pairs l) × Room (reward_pairs l) p

pub reward_paid :
    (e : Env) (l : Slice) (p : Player)
    → IsReward e (reward_pairs l)
    → Room (reward_pairs l) p
    → (j : ℤ) → IsSpendable j
    → get_resource (add_resources e l p) j ≡ get_resource p j +ℤ sum_of j (reward_pairs l)
unfolding add_resources
reward_paid e none p r room j s =
    eq_of_parts _ _ (omega (arith, +ℤ_parts (get_resource p j) (pos 0)))
reward_paid e (some l) p r room j s = add_resources_exact e l p r room j s
