-- ===== src/Player/Resource/Sync.antt =====
-- The items that a client shows: it starts from the counts that it was sent, and adds the changes of
-- each later message (check_and_send_items_change).
use ih_server.Base.{
  ℤ, pos, ◌+ℤ◌, +ℤ_parts, eq_of_parts, IsInt32, ◌≤ℤ◌, Dict, List, [], ◌∷◌, Option, none, some,
  Option-cases, inl, inr, lookup, ◌≡◌, refl, sym, ap, pos_part, neg_part, arith,
}
use ih_server.Player.Env.{Env}
use ih_server.Player.State.{Player, value_or_zero, send}
use ih_server.Player.Resource.{get_item, bonus_count, add_item, del_item}
use ih_server.Player.Resource.ById.{check_and_send_items_change}
use ih_server.Player.Resource.Items.{Counted, noted}
use ih_server.Player.Resource.Changes.{Logged, add_item-Logged, del_item-Logged}

-- What happens to the items of a player.
pub data ItemOp : Type 0 where
  gain take : ℤ → ℤ → ItemOp
  flush : ItemOp

-- A client's counts after the ItemsAdd of a message.
abbrev apply_changes : Dict ℤ → (ℤ → ℤ) → ℤ → ℤ
apply_changes m f id = f id +ℤ value_or_zero (lookup id m)

abbrev pub shown : Option (Dict ℤ) → (ℤ → ℤ) → ℤ → ℤ
shown none f = f
shown (some m) f = apply_changes m f

-- The player, and the counts that its client shows.
abbrev step : Env → ItemOp → (ℤ → ℤ) × Player → (ℤ → ℤ) × Player
step e (gain id n) (f, p) = (f, (add_item e id n p).0)
step e (take id n) (f, p) = (f, (del_item id n p).0)
step e flush (f, p) = (shown p.items_changed_info f, check_and_send_items_change p)

unfoldable pub run : Env → List ItemOp → (ℤ → ℤ) × Player → (ℤ → ℤ) × Player
run e [] s = s
run e (op ∷ ops) s = run e ops (step e op s)

-- The counts that are added and taken are int32s, and no bonus of honor overflows.
abbrev Fits : Env → ItemOp → Type 0
Fits e (gain id n) = (p : Player) → (pos 0 ≤ℤ bonus_count e p id n) × IsInt32 (bonus_count e p id n)
Fits e (take id n) = IsInt32 n
Fits e flush = Unit {0}

abbrev pub AllFit : Env → List ItemOp → Type 0
AllFit e [] = Unit {0}
AllFit e (op ∷ ops) = Fits e op × AllFit e ops

-- A client and a player whose counts differ by what is noted.
abbrev pub InStep : (ℤ → ℤ) × Player → Type 0
InStep s = Counted s.0 × Logged s.0 s.1

flush_shows :
    (f : ℤ → ℤ) (p : Player)
    → Logged f p
    → (id : ℤ) → shown p.items_changed_info f id ≡ get_item p id
unfolding lookup
flush_shows f p l id = elim (Option-cases p.items_changed_info) [
  | inl e ↦ rw e (
      eq_of_parts _ _ (
        omega (
          arith,
          ap pos_part (rw e at (l.logged id)),
          ap neg_part (rw e at (l.logged id)),
          +ℤ_parts (f id) (pos 0),
        )))
  | inr (m, e) ↦ rw e (sym (rw e at (l.logged id)))
]

flush-same :
    (p : Player) (id : ℤ)
    → (get_item (check_and_send_items_change p) id ≡ get_item p id)
      × (noted (check_and_send_items_change p) id ≡ pos 0)
unfolding check_and_send_items_change send lookup
flush-same p id = elim (Option-cases p.items_changed_info) [
  | inl e ↦ rw (e, check_and_send_items_change) (refl, rw e)
  | inr (m, e) ↦ rw (e, check_and_send_items_change) (refl, refl)
]

flush-InStep : (e : Env) (s : (ℤ → ℤ) × Player) → InStep s → InStep (step e flush s)
flush-InStep e (f, p) (c, l) = (
  λ id. rw (flush_shows f p l id) (l.counted id),
  record {
    counted = λ id. rw ((flush-same p id).0) (l.counted id);
    logged = λ id.
        rw ((flush-same p id).0, (flush-same p id).1, flush_shows f p l id)
          (eq_of_parts _ _ (omega (arith, +ℤ_parts (get_item p id) (pos 0))));
  },
)

step-InStep :
    (e : Env) (op : ItemOp) (s : (ℤ → ℤ) × Player) → Fits e op → InStep s → InStep (step e op s)
step-InStep e (gain id n) (f, p) h (c, l) = (c, add_item-Logged f c p l e id n (h p).0 (h p).1)
step-InStep e (take id n) (f, p) h (c, l) = (c, del_item-Logged f c p l id n h)
step-InStep e flush s h i = flush-InStep e s i

run-InStep :
    (e : Env) (ops : List ItemOp) (s : (ℤ → ℤ) × Player)
    → AllFit e ops
    → InStep s
    → InStep (run e ops s)
unfolding run
run-InStep e [] s h i = i
run-InStep e (op ∷ ops) s h i = run-InStep e ops (step e op s) h.1 (step-InStep e op s h.0 i)

-- After any additions, removals and messages, the next message brings the client to the counts of
-- the player, which are in the range of an int32 and not negative: where the amounts are int32s, no
-- addition is negative or overflows with its bonus, and the client and the player start in step.
pub client-InStep :
    (e : Env) (ops : List ItemOp) (f : ℤ → ℤ) (p : Player)
    → AllFit e ops
    → InStep (f, p)
    → (id : ℤ)
    → let t = run e ops (f, p) in
      (shown t.1.items_changed_info t.0 id ≡ get_item t.1 id)
      × (pos 0 ≤ℤ get_item t.1 id)
      × IsInt32 (get_item t.1 id)
client-InStep e ops f p h i id =
    let (c, l) = run-InStep e ops (f, p) h i in
    (flush_shows _ _ l id, (l.counted id).0, (l.counted id).1)
