-- ===== src/Player/Equip/Bag.antt =====
-- One item more or less in the bag of a player, as equip and unequip move it.
use ih_server.Base.{
  ℕ, ◌+◌, ◌≤◌, ◌<◌, ℤ, pos, pos_part, ◌<ℤ◌, ◌≤ℤ◌, ◌+₃₂◌, neg32, IsInt32, ◌=?◌, ◌<?◌, =?-iff, Option,
  none, some, Option-cases, inl, inr, if◌then◌else◌, lookup, insert, delete, ◌≡◌, ◌≢◌, refl, ap,
  ◌∙◌, false, -ℤ_parts, arith, +ℤ_parts,
}
use ih_server.Player.Env.{Env, ItemData}
use ih_server.Player.State.{Player, value_or_zero}
use ih_server.Player.Resource.{get_item, add_item, del_item, bonus_count, stock, head_type}
use ih_server.Player.Resource.Items.{stock_lem, stocked, del_counts, taken_exact}
use ih_server.Player.Equip.Worn.{one_if}

-- An item that is counted as it comes: it is in the table, no avatar, and not honor.
abbrev pub Gear : Env → ℤ → Type 0
Gear e id =
    (item : ItemData) × (e.item_table id ≡ some item) × (item.item_type ≢ head_type) × (id ≢ pos 17)

abbrev pub Countable : Player → Type 0
Countable p = (k : ℤ) → pos 0 ≤ℤ get_item p k

abbrev pub count : Player → ℤ → ℕ
count p k = pos_part (get_item p k)

module _ (p : Player) (x : ℤ) (h : Countable p) where
  stocked_one :
      (item : ItemData) (o : Option ℤ)
      → item.item_type ≢ head_type
      → pos 0 ≤ℤ value_or_zero o
      → pos_part (value_or_zero o) < 2147483647
      → (pos 0 ≤ℤ stocked item o (pos 1))
        × (pos_part (stocked item o (pos 1)) ≡ pos_part (value_or_zero o) + 1)
  stocked_one item none plain low room = ground (arith, =?-iff item.item_type head_type)
  stocked_one item (some old) plain low room =
      ground (arith, =?-iff item.item_type head_type, +ℤ_parts old (pos 1))

  counted-IsInt32 : count p x ≤ 2147483647 → IsInt32 (get_item p x)
  counted-IsInt32 room = omega (arith, h x, room)

  add_items :
      (e : Env) (item : ItemData)
      → e.item_table x ≡ some item
      → x ≢ pos 17
      → (add_item e x (pos 1) p).0.items ≡ (stock item x (pos 1) p.items).0
  unfolding add_item bonus_count
  add_items e item row no_honor =
      let no_bonus : bonus_count e p x (pos 1) ≡ pos 1 =
        ground (arith, no_honor, =?-iff x (pos 17)) in
      rw (add_item, row, no_bonus) refl

  added :
      (e : Env)
      → Gear e x
      → count p x < 2147483647
      → (k : ℤ)
      → let q = (add_item e x (pos 1) p).0 in
        (pos 0 ≤ℤ get_item q k) × (count q k ≡ count p k + one_if x k)
  added e (item, row, plain, no_honor) room k =
      let small = counted-IsInt32 (omega (arith, room)) in
      let (there, more, down, int, some_more) =
        stock_lem item x (pos 1) p.items (omega arith) (omega arith) k (lookup x p.items) refl (h x)
          small in
      let (low, up) = stocked_one item (lookup x p.items) plain (h x) room in
      let same = ap (λ m. value_or_zero (lookup k m)) (add_items e item row no_honor) ∙ there in
      rw same (ground (arith, low, up, h k, =?-iff x k))

  pub add_one :
      (e : Env)
      → Gear e x
      → count p x < 2147483647
      → let q = (add_item e x (pos 1) p).0 in
        Countable q × ((k : ℤ) → count q k ≡ count p k + one_if x k)
  add_one e gear room = (λ k. (added e gear room k).0, λ k. (added e gear room k).1)

  del_items :
      (c : ℤ)
      → lookup x p.items ≡ some c
      → pos 0 <ℤ c
      → (del_item x (pos 1) p).0.items
        ≡ (if c =? pos 1 then delete x p.items else insert x (c +₃₂ neg32 (pos 1)) p.items)
  unfolding del_item
  del_items c there positive =
      let enough : (c <? pos 1) ≡ false = ground (arith, positive) in
      rw (del_item, there, enough) refl

  deleted :
      0 < count p x
      → count p x ≤ 2147483647
      → (k : ℤ)
      → let q = (del_item x (pos 1) p).0 in
        (pos 0 ≤ℤ get_item q k) × (count q k + one_if x k ≡ count p k)
  deleted some_left room k = elim (Option-cases (lookup x p.items)) [
    | inl missing ↦ absurd (omega (arith, some_left, ap (λ o. pos_part (value_or_zero o)) missing))
    | inr (c, there) ↦
        let is_c : get_item p x ≡ c = ap value_or_zero there in
        let small : IsInt32 c = ground (arith, counted-IsInt32 room, is_c) in
        let positive : pos 0 <ℤ c = ground (arith, some_left, is_c, h x) in
        let exact = taken_exact c (pos 1) (omega arith) (omega (arith, positive)) small in
        let same =
          ap (λ m. value_or_zero (lookup k m)) (del_items c there positive)
          ∙ del_counts x c (pos 1) k p.items there (omega arith) (omega (arith, positive)) small in
        rw same (ground (arith, exact, h k, is_c, positive, =?-iff x k, -ℤ_parts c (pos 1)))
  ]

  pub del_one :
      0 < count p x
      → count p x ≤ 2147483647
      → let q = (del_item x (pos 1) p).0 in
        Countable q × ((k : ℤ) → count q k + one_if x k ≡ count p k)
  del_one left room = (λ k. (deleted left room k).0, λ k. (deleted left room k).1)
