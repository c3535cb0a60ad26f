-- ===== src/Player/Resource/Reward/Same.antt =====
-- add_resource: what each amount of a reward leaves alone.
use ih_server.Base.{
  ◌+◌, ℤ, pos, pos_part, ◌+ℤ◌, ◌+₃₂◌, ◌-₃₂◌, neg32, ◌≤ℤ◌, ◌<ℤ◌, ◌=?◌, =?-iff, List, [], ◌∷◌, Option,
  none, some, Option-cases, inl, inr, true, Bool, false, if◌then◌else◌, lookup, lookup-insert,
  lookup-delete, max_int32, ◌≡◌, ◌≢◌, ◌⊎◌, refl, ap, arith,
}
use ih_server.Player.Env.{Env, ItemData}
use ih_server.Player.State.{Player, send}
use ih_server.Player.Task.{reach_level, reach_vip_n_level, get_quality_equips_num}
use ih_server.Player.Task.Update.{task_update}
use ih_server.Player.Task.Frame.{task_update-OnlyTasks}
use ih_server.Player.Resource.{
  get_item, add_exp, add_item, del_item, add_points, level_up, vip_level_up, stock, bonus_count,
  head_type, gold_id, diamond_id, exp_id, vip_exp_id,
}
use ih_server.Player.Resource.ById.{get_resource, set_resource, set_item, add_vip_exp, gained}
use ih_server.Player.Resource.Price.{IsSpendable}

-- The sum of the amounts of a resource in a reward.
abbrev pub sum_of : ℤ → List (ℤ × ℤ) → ℤ
sum_of j [] = pos 0
sum_of j ((id, n) ∷ l) = if id =? j then n +ℤ sum_of j l else sum_of j l

-- What is counted as it comes: gold, diamonds, and items of the table but avatars, of which a player has
-- one at most, and honor, which has a bonus; experience raises levels.
abbrev pub Counts : Env → ℤ → Type 0
Counts e id =
    ((id =? gold_id) ≡ true)
    ⊎ ((id =? diamond_id) ≡ true)
    ⊎ ((id =? exp_id) ≡ true)
    ⊎ ((id =? vip_exp_id) ≡ true)
    ⊎ ((item : ItemData) × (e.item_table id ≡ some item)
        × (item.item_type ≢ head_type)
        × (id ≢ pos 17))

-- A reward has positive amounts of such resources.
abbrev pub IsReward : Env → List (ℤ × ℤ) → Type 0
IsReward e [] = Unit {0}
IsReward e ((id, n) ∷ l) = Counts e id × (pos 0 <ℤ n) × IsReward e l

-- The resources but experience are not negative, and have room for a reward below MaxInt32.
abbrev pub Room : List (ℤ × ℤ) → Player → Type 0
Room l p =
    (j : ℤ)
    → IsSpendable j
    → (pos 0 ≤ℤ get_resource p j) × (get_resource p j +ℤ sum_of j l ≤ℤ max_int32)

-- The resources but experience are the same.
abbrev pub Same : Player → Player → Type 0
Same p q = (j : ℤ) → IsSpendable j → get_resource q j ≡ get_resource p j

pub update-Same :
    (e : Env) (ty : ℤ) (b : Bool) (param v : ℤ) (p : Player) → Same p (task_update e ty b param v p)
unfolding get_resource
update-Same e ty b param v p j s =
    ap (λ x. get_resource x j) (task_update-OnlyTasks e ty b param v p).same

pub exp-Same : (e : Env) (n : ℤ) (p : Player) → Same p (add_exp e n p)
unfolding add_exp send get_resource
exp-Same e n p j s =
    let total = add_points n p.exp in
    let (level, exp) = level_up (pos_part total + 1) e.levelup_table p.lvl total in
    let q = record p { exp = exp; b_base_prop_chg = true } in
    ground (
      arith,
      s,
      update-Same e reach_level true level (pos 1)
          (record p { lvl = level; row_level = level; b_base_prop_chg = true }) j s,
      update-Same e reach_level true level (pos 1)
          (record q { lvl = level; row_level = level; b_base_prop_chg = true }) j s,
    )

-- add_item and del_item leave gold, diamonds and the other items.
pub add_item-others :
    (e : Env) (id n : ℤ) (p : Player) (j : ℤ)
    → j ≢ id
    → get_resource (add_item e id n p).0 j ≡ get_resource p j
unfolding add_item get_resource stock
add_item-others e id n p j other =
    let c = bonus_count e p id n in
    elim (Option-cases (lookup id p.items)) [
      | inl missing ↦ ground (
        arith,
        other,
        =?-iff id j,
        missing,
        lookup-insert id j c p.items,
        lookup-insert id j (pos 1) p.items,
      )
      | inr (old, there) ↦ ground (
        arith,
        other,
        =?-iff id j,
        there,
        lookup-insert id j max_int32 p.items,
        lookup-insert id j (old +₃₂ c) p.items,
      )
    ]

pub del_item-others :
    (id n : ℤ) (p : Player) (j : ℤ) → j ≢ id → get_resource (del_item id n p).0 j ≡ get_resource p j
unfolding del_item get_resource
del_item-others id n p j other = elim (Option-cases (lookup id p.items)) [
  | inl missing ↦ rw (del_item, missing) refl
  | inr (c, there) ↦ ground (
    arith,
    other,
    =?-iff id j,
    there,
    lookup-insert id j (c +₃₂ neg32 n) p.items,
    lookup-delete id j p.items,
  )
]

pub not_vip : (j : ℤ) → IsSpendable j → j ≢ vip_exp_id
not_vip j s at = ground (arith, s.1, at)

pub vip-Same : (e : Env) (n : ℤ) (p : Player) → Same p (add_vip_exp e n p)
unfolding add_vip_exp set_resource set_item send get_resource
vip-Same e n p j s =
    let exp = add_points n (get_resource p vip_exp_id) in
    let level = vip_level_up (pos_part e.vip_table_len + 1) e.vip_table exp p.vip_lvl in
    let t =
      task_update e reach_vip_n_level true level (pos 1)
        (record p { vip_lvl = level; b_base_prop_chg = true }) in
    let up =
      update-Same e reach_vip_n_level true level (pos 1)
        (record p { vip_lvl = level; b_base_prop_chg = true }) j s in
    let other = not_vip j s in
    ground (
      arith,
      up,
      add_item-others e vip_exp_id (neg32 (get_item t vip_exp_id) +₃₂ exp) t j other,
      add_item-others e vip_exp_id (neg32 (get_item p vip_exp_id) +₃₂ exp) p j other,
      del_item-others vip_exp_id (get_item t vip_exp_id -₃₂ exp) t j other,
      del_item-others vip_exp_id (get_item p vip_exp_id -₃₂ exp) p j other,
    )

pub gained-Same : (e : Env) (n : ℤ) (r : Player × Option ItemData) → Same r.0 (gained e n r).0
unfolding gained
gained-Same e n (q, none) j s = refl
gained-Same e n (q, some i) j s =
    ground (arith, update-Same e get_quality_equips_num false i.quality n q j s)

-- What is added to one resource.
abbrev pub One : ℤ → ℤ → Player → Player → Type 0
One id n p q =
    (j : ℤ)
    → IsSpendable j
    → get_resource q j ≡ (if id =? j then get_resource p id +ℤ n else get_resource p j)
