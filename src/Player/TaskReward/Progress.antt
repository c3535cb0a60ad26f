-- ===== src/Player/TaskReward/Progress.antt =====
-- src/hall_server/player_task.go: TaskUpdate, and the rewards that call it, keep a task whose reward is
-- taken so.
use ih_server.Base.{
  ℤ, pos, ◌=?◌, ◌+₃₂◌, =?-iff, =?-refl, List, [], ◌∷◌, Option, none, some, Option-cases, Bool-cases,
  Bool, true, false, inl, inr, if◌then◌else◌, lookup, lookup-insert, ◌≡◌, ◌≢◌, refl, arith,
}
use ih_server.Player.Env.{Env, TaskItem}
use ih_server.Player.State.{Player, TaskData, send}
use ih_server.Player.Task.{reward, get_value, get_state, incby_value}
use ih_server.Player.Task.Update.{
  notify_task_value, single_task_update, task_update_one, task_update_loop, task_update,
}
use ih_server.Player.TaskReward.Kept.{
  Kept, Lasting, Kept-refl, Kept-trans, same-Kept, open-Kept, send-Kept, notify-Kept, single-Kept,
  whole-Kept, check_and_send-Kept,
}
use ih_server.Player.Env.{Slice, ItemData}
use ih_server.Base.{◌+◌, pos_part, neg32}
use ih_server.Player.State.{pairs, activitys_update}
use ih_server.Player.Task.{reach_level, reach_vip_n_level, get_quality_equips_num}
use ih_server.Player.Resource.{
  add_gold, add_diamond, add_exp, add_item, del_item, level_up, add_points, vip_level_up,
  vip_exp_id, charge_return,
}
use ih_server.Player.Resource.ById.{
  get_resource, set_resource, set_item, add_vip_exp, add_item_resource, gained, add_resource,
  add_pairs, add_resources,
}

module _ (e : Env) (id : ℤ) (steady : Lasting e id) where
  -- The progress of the task itself.
  own-single :
      (t : TaskItem) (v : ℤ) (p : Player) (d : TaskData)
      → t.task_id ≡ id
      → lookup id p.tasks ≡ some d
      → Kept id p (single_task_update t v p).0
        × ((d.state ≡ reward) → (single_task_update t v p).1.updated ≡ false)
  unfolding single_task_update incby_value
  own-single t v p d is_id there =
      let at : lookup t.task_id p.tasks ≡ some d = rw is_id there in
      elim (Bool-cases (d.state =? reward)) [
        | inl taken ↦
            let is_reward : get_state p t.task_id ≡ reward =
              ground (arith, at, taken, =?-iff d.state reward) in
            let stays : (single_task_update t v p).0 ≡ p = ground (arith, at, is_reward) in
            (rw stays (Kept-refl id p), λ h. ground (arith, at, is_reward))
        | inr fresh ↦ (
          open-Kept id p (single_task_update t v p).0 d there
              (ground (arith, fresh, =?-iff d.state reward))
              (ground (
                arith,
                at,
                there,
                lookup-insert t.task_id id
                    (record { value = get_value p t.task_id +₃₂ v; state = get_state p t.task_id })
                    p.tasks,
                =?-iff t.task_id id,
                is_id,
              )),
          λ h. absurd (ground (arith, h, fresh, =?-iff d.state reward)),
        )
      ]

  own-Kept :
      (t : TaskItem)
      → t.task_id ≡ id
      → (b : Bool) (param v : ℤ) (p : Player) → Kept id p (task_update_one e b param v t p)
  unfolding task_update_one
  own-Kept t is_id b param v p =
      let (q, r) = single_task_update t v p in
      let n = notify_task_value t.task_id r.cur_val r.cur_state q in
      elim (Option-cases (lookup id p.tasks)) [
        | inl gone ↦
            let at : lookup t.task_id p.tasks ≡ none = rw is_id gone in
            let stays : task_update_one e b param v t p ≡ p = ground (arith, at) in
            rw stays (Kept-refl id p)
        | inr (d, there) ↦
            let (one, rest) = own-single t v p d is_id there in
            let told = notify-Kept e id t.task_id r.cur_val r.cur_state p q one in
            ground
              (arith, one, told, Kept-refl id p, Kept-trans id told (whole-Kept e id steady t n))
      ]

  update_one-Kept :
      (b : Bool) (param v : ℤ) (t : TaskItem) (p : Player)
      → Kept id p (task_update_one e b param v t p)
  unfolding task_update_one
  update_one-Kept b param v t p =
      let (q, r) = single_task_update t v p in
      let n = notify_task_value t.task_id r.cur_val r.cur_state q in
      elim (Bool-cases (t.task_id =? id)) [
        | inr other ↦
            let neq : t.task_id ≢ id = λ same. absurd (ground (arith, other, same, =?-refl id)) in
            let one = single-Kept e id steady t v p neq in
            let told = notify-Kept e id t.task_id r.cur_val r.cur_state p q one in
            ground
              (arith, one, told, Kept-refl id p, Kept-trans id told (whole-Kept e id steady t n))
        | inl same ↦ own-Kept t ((=?-iff t.task_id id).0 same) b param v p
      ]

  loop-Kept :
      (b : Bool) (param v : ℤ) (l : List TaskItem) (p : Player)
      → Kept id p (task_update_loop e b param v l p)
  unfolding task_update_loop
  loop-Kept b param v [] p = Kept-refl id p
  loop-Kept b param v (t ∷ ts) p =
      Kept-trans id (update_one-Kept b param v t p)
        (loop-Kept b param v ts (task_update_one e b param v t p))

  update_by-Kept :
      (ty : ℤ) (b : Bool) (param v : ℤ) (p : Player) (l : List TaskItem)
      → e.finish_tasks ty ≡ l
      → Kept id p (task_update e ty b param v p)
  unfolding task_update
  update_by-Kept ty b param v p [] h = rw (h, task_update) (Kept-refl id p)
  update_by-Kept ty b param v p (t ∷ ts) h =
      rw (h, task_update)
        (Kept-trans id (loop-Kept b param v (t ∷ ts) p) (check_and_send-Kept e id steady _))

  pub task_update-Kept :
      (ty : ℤ) (b : Bool) (param v : ℤ) (p : Player) → Kept id p (task_update e ty b param v p)
  task_update-Kept ty b param v p = update_by-Kept ty b param v p (e.finish_tasks ty) refl

  -- After another change of what is no task.
  update_after-Kept :
      (ty : ℤ) (b : Bool) (param v : ℤ) (p q : Player)
      → Kept id p q
      → Kept id p (task_update e ty b param v q)
  update_after-Kept ty b param v p q one = Kept-trans id one (task_update-Kept ty b param v q)

  gold-Kept : (n : ℤ) (p : Player) → Kept id p (add_gold n p)
  unfolding add_gold
  gold-Kept n p = same-Kept id p (add_gold n p) refl refl

  diamond-Kept : (n : ℤ) (p : Player) → Kept id p (add_diamond n p)
  unfolding add_diamond send
  diamond-Kept n p = same-Kept id p (add_diamond n p) (ground arith) (ground arith)

  add_item-Kept : (i n : ℤ) (p : Player) → Kept id p (add_item e i n p).0
  unfolding add_item
  add_item-Kept i n p = same-Kept id p (add_item e i n p).0 (ground arith) (ground arith)

  del_item-Kept : (i n : ℤ) (p : Player) → Kept id p (del_item i n p).0
  unfolding del_item
  del_item-Kept i n p = same-Kept id p (del_item i n p).0 (ground arith) (ground arith)

  set_resource-Kept : (i n : ℤ) (p : Player) → Kept id p (set_resource e i n p).0
  unfolding set_resource set_item add_item del_item
  set_resource-Kept i n p = same-Kept id p (set_resource e i n p).0 (ground arith) (ground arith)

  exp-Kept : (n : ℤ) (p : Player) → Kept id p (add_exp e n p)
  unfolding add_exp send
  exp-Kept n p =
      let total = add_points n p.exp in
      let (level, exp) = level_up (pos_part total + 1) e.levelup_table p.lvl total in
      let q = record p { exp = exp; b_base_prop_chg = true } in
      let up = record p { lvl = level; row_level = level; b_base_prop_chg = true } in
      let both = record q { lvl = level; row_level = level; b_base_prop_chg = true } in
      let first = task_update-Kept reach_level true level (pos 1) up in
      let second = task_update-Kept reach_level true level (pos 1) both in
      record {
        present = λ h. ground (arith, h, first.present h, second.present h);
        claimed = λ h. ground (arith, h, first.claimed h, second.claimed h);
      }

  vip_tail-Kept :
      (exp n : ℤ) (p q : Player)
      → Kept id p q
      → Kept id p (
          send
            (activitys_update charge_return n)
            (if exp =? get_resource q vip_exp_id then q else (set_resource e vip_exp_id exp q).0))
  vip_tail-Kept exp n p q one =
      let r = if exp =? get_resource q vip_exp_id then q else (set_resource e vip_exp_id exp q).0 in
      let two : Kept id p r =
        ground (arith, one, Kept-trans id one (set_resource-Kept vip_exp_id exp q)) in
      Kept-trans id two (send-Kept e id (activitys_update charge_return n) r)

  vip-Kept : (n : ℤ) (p : Player) → Kept id p (add_vip_exp e n p)
  unfolding add_vip_exp
  vip-Kept n p =
      let exp = add_points n (get_resource p vip_exp_id) in
      let level = vip_level_up (pos_part e.vip_table_len + 1) e.vip_table exp p.vip_lvl in
      let q = record p { vip_lvl = level; b_base_prop_chg = true } in
      let raised =
        update_after-Kept reach_vip_n_level true level (pos 1) p q (same-Kept id p q refl refl) in
      ground (
        arith,
        Kept-refl id p,
        vip_tail-Kept exp n p p (Kept-refl id p),
        vip_tail-Kept exp n p (task_update e reach_vip_n_level true level (pos 1) q) raised,
      )

  gained-Kept :
      (n : ℤ) (p : Player) (r : Player × Option ItemData)
      → Kept id p r.0
      → Kept id p (gained e n r).0
  unfolding gained
  gained-Kept n p (q, none) one = one
  gained-Kept n p (q, some i) one =
      ground (arith, one, update_after-Kept get_quality_equips_num false i.quality n p q one)

  item_resource-Kept : (i n : ℤ) (p : Player) → Kept id p (add_item_resource e i n p).0
  unfolding add_item_resource
  item_resource-Kept i n p =
      ground (
        arith,
        del_item-Kept i (neg32 n) p,
        gained-Kept n p (add_item e i n p) (add_item-Kept i n p),
      )

  add_resource-Kept : (i n : ℤ) (p : Player) → Kept id p (add_resource e i n p).0
  unfolding add_resource
  add_resource-Kept i n p =
      ground (
        arith,
        gold-Kept n p,
        diamond-Kept n p,
        exp-Kept n p,
        vip-Kept n p,
        item_resource-Kept i n p,
      )

  add_pairs-Kept : (l : List (ℤ × ℤ)) (p : Player) → Kept id p (add_pairs e l p)
  unfolding add_pairs
  add_pairs-Kept [] p = Kept-refl id p
  add_pairs-Kept ((i, n) ∷ l) p =
      Kept-trans id (add_resource-Kept i n p) (add_pairs-Kept l (add_resource e i n p).0)

  pub add_resources-Kept : (s : Slice) (p : Player) → Kept id p (add_resources e s p)
  unfolding add_resources
  add_resources-Kept none p = Kept-refl id p
  add_resources-Kept (some l) p = add_pairs-Kept (pairs l) p
