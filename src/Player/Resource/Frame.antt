-- ===== src/Player/Resource/Frame.antt =====
-- src/hall_server/player_item.go: what the movements of resources leave alone.
use ih_server.Base.{
  ℤ, pos, pos_part, ◌+◌, ◌+₃₂◌, ◌-₃₂◌, neg32, ◌=?◌, if◌then◌else◌, false, List, [], ◌∷◌, Option,
  none, some, Bool, true, ◌≡◌, refl, ◌∙◌, ap, arith,
}
use ih_server.Player.Env.{Env, Slice, ItemData}
use ih_server.Player.State.{Player, send, pairs, activitys_update}
use ih_server.Player.Task.Frame.{OnlyTasks, task_update-OnlyTasks}
use ih_server.Player.Task.{reach_level, reach_vip_n_level, get_quality_equips_num}
use ih_server.Player.Resource.{
  add_gold, add_diamond, add_exp, add_item, del_item, level_up, add_points, vip_level_up,
  vip_exp_id, charge_return, get_item,
}
use ih_server.Player.Task.Update.{task_update}
use ih_server.Player.Resource.ById.{
  get_resource, set_resource, set_item, add_vip_exp, add_item_resource, gained, add_resource,
  add_pairs, add_resources, cost_pairs,
}

-- `q` differs from `p` in resources, tasks and effects at most, where a call of activitys_update is
-- an effect.
pub record OnlyWallet (p q : Player) : Type 0 where
  pub same : q ≡ record p {
    gold = q.gold;
    diamond = q.diamond;
    exp = q.exp;
    lvl = q.lvl;
    row_level = q.row_level;
    vip_lvl = q.vip_lvl;
    items = q.items;
    items_changed_info = q.items_changed_info;
    b_base_prop_chg = q.b_base_prop_chg;
    tasks = q.tasks;
    task_refresh_time = q.task_refresh_time;
    effects = q.effects;
  }

OnlyWallet-refl : (p : Player) → OnlyWallet p p
OnlyWallet-refl p = record { same = refl }

OnlyWallet-trans : {p q r : Player} → OnlyWallet p q → OnlyWallet q r → OnlyWallet p r
OnlyWallet-trans {p} {q} {r} a b = record {
  same =
      b.same
      ∙ ap {B = Player}
          (λ (x : Player). record x {
            gold = r.gold;
            diamond = r.diamond;
            exp = r.exp;
            lvl = r.lvl;
            row_level = r.row_level;
            vip_lvl = r.vip_lvl;
            items = r.items;
            items_changed_info = r.items_changed_info;
            b_base_prop_chg = r.b_base_prop_chg;
            tasks = r.tasks;
            task_refresh_time = r.task_refresh_time;
            effects = r.effects;
          })
          a.same;
}

tasks-OnlyWallet : {p q : Player} → OnlyTasks p q → OnlyWallet p q
tasks-OnlyWallet {p} {q} t = ground arith

gold-OnlyWallet : (a : ℤ) (p : Player) → OnlyWallet p (add_gold a p)
unfolding add_gold
gold-OnlyWallet a p = record { same = refl }

diamond-OnlyWallet : (a : ℤ) (p : Player) → OnlyWallet p (add_diamond a p)
unfolding add_diamond send
diamond-OnlyWallet a p = ground arith

add_item-OnlyWallet : (e : Env) (id n : ℤ) (p : Player) → OnlyWallet p (add_item e id n p).0
unfolding add_item
add_item-OnlyWallet e id n p = ground arith

del_item-OnlyWallet : (id n : ℤ) (p : Player) → OnlyWallet p (del_item id n p).0
unfolding del_item
del_item-OnlyWallet id n p = ground arith

pub set_resource-OnlyWallet :
    (e : Env) (id n : ℤ) (p : Player) → OnlyWallet p (set_resource e id n p).0
unfolding set_resource set_item
set_resource-OnlyWallet e id n p =
    let old = get_item p id in
    ground (
      arith,
      OnlyWallet-refl p,
      add_item-OnlyWallet e id (neg32 old +₃₂ n) p,
      del_item-OnlyWallet id (old -₃₂ n) p,
    )

module _ (e : Env) where
  update-OnlyWallet :
      (ty : ℤ) (b : Bool) (param v : ℤ) (p q : Player)
      → OnlyWallet p q
      → OnlyWallet p (task_update e ty b param v q)
  update-OnlyWallet ty b param v p q w =
      OnlyWallet-trans w (tasks-OnlyWallet (task_update-OnlyTasks e ty b param v q))

  add_exp-OnlyWallet : (n : ℤ) (p : Player) → OnlyWallet p (add_exp e n p)
  unfolding add_exp send
  add_exp-OnlyWallet n p =
      let total = add_points n p.exp in
      let (level, exp) = level_up (pos_part total + 1) e.levelup_table p.lvl total in
      let q = record p { exp = exp; b_base_prop_chg = true } in
      ground (
        arith,
        update-OnlyWallet reach_level true level (pos 1) p
            (record p { lvl = level; row_level = level; b_base_prop_chg = true })
            (record { same = refl }),
        update-OnlyWallet reach_level true level (pos 1) p
            (record q { lvl = level; row_level = level; b_base_prop_chg = true })
            (record { same = refl }),
      )

  vip_tail-OnlyWallet :
      (exp n : ℤ) (p q : Player)
      → OnlyWallet p q
      → OnlyWallet p (
          send
            (activitys_update charge_return n)
            (if exp =? get_resource q vip_exp_id then q else (set_resource e vip_exp_id exp q).0))
  unfolding send
  vip_tail-OnlyWallet exp n p q w =
      ground (arith, w, OnlyWallet-trans w (set_resource-OnlyWallet e vip_exp_id exp q))

  add_vip_exp-OnlyWallet : (n : ℤ) (p : Player) → OnlyWallet p (add_vip_exp e n p)
  unfolding add_vip_exp
  add_vip_exp-OnlyWallet n p =
      let exp = add_points n (get_resource p vip_exp_id) in
      let level = vip_level_up (pos_part e.vip_table_len + 1) e.vip_table exp p.vip_lvl in
      let q = record p { vip_lvl = level; b_base_prop_chg = true } in
      ground (
        arith,
        OnlyWallet-refl p,
        vip_tail-OnlyWallet exp n p p (OnlyWallet-refl p),
        vip_tail-OnlyWallet exp n p (task_update e reach_vip_n_level true level (pos 1) q)
            (update-OnlyWallet reach_vip_n_level true level (pos 1) p q (record { same = refl })),
      )

  gained-OnlyWallet :
      (n : ℤ) (p : Player) (r : Player × Option ItemData)
      → OnlyWallet p r.0
      → OnlyWallet p (gained e n r).0
  unfolding gained
  gained-OnlyWallet n p (q, none) w = w
  gained-OnlyWallet n p (q, some i) w =
      ground (arith, w, update-OnlyWallet get_quality_equips_num false i.quality n p q w)

  item_resource-OnlyWallet : (id n : ℤ) (p : Player) → OnlyWallet p (add_item_resource e id n p).0
  unfolding add_item_resource
  item_resource-OnlyWallet id n p = ground (
    arith,
    del_item-OnlyWallet id (neg32 n) p,
    gained-OnlyWallet n p (add_item e id n p) (add_item-OnlyWallet e id n p),
  )

  pub add_resource-OnlyWallet : (id n : ℤ) (p : Player) → OnlyWallet p (add_resource e id n p).0
  unfolding add_resource
  add_resource-OnlyWallet id n p = ground (
    arith,
    gold-OnlyWallet n p,
    diamond-OnlyWallet n p,
    add_exp-OnlyWallet n p,
    add_vip_exp-OnlyWallet n p,
    item_resource-OnlyWallet id n p,
  )

  pub add_pairs-OnlyWallet : (l : List (ℤ × ℤ)) (p : Player) → OnlyWallet p (add_pairs e l p)
  unfolding add_pairs
  add_pairs-OnlyWallet [] p = OnlyWallet-refl p
  add_pairs-OnlyWallet ((id, n) ∷ l) p =
      OnlyWallet-trans (add_resource-OnlyWallet id n p) (add_pairs-OnlyWallet l _)

  pub cost_pairs-OnlyWallet : (l : List (ℤ × ℤ)) (p : Player) → OnlyWallet p (cost_pairs e l p)
  unfolding cost_pairs
  cost_pairs-OnlyWallet [] p = OnlyWallet-refl p
  cost_pairs-OnlyWallet ((id, n) ∷ l) p =
      OnlyWallet-trans (add_resource-OnlyWallet id (neg32 n) p) (cost_pairs-OnlyWallet l _)

  -- add_resources changes resources, levels, items, tasks, the clock of their reset and messages at most.
  pub add_resources-OnlyWallet : (s : Slice) (p : Player) → OnlyWallet p (add_resources e s p)
  unfolding add_resources
  add_resources-OnlyWallet none p = OnlyWallet-refl p
  add_resources-OnlyWallet (some l) p = add_pairs-OnlyWallet (pairs l) p
