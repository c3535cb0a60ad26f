-- ===== src/Player/Equip/Kept.antt =====
-- What equip and unequip do once they have a role and its slots: nothing that the player has is lost.
use ih_server.Base.{
  ℕ, ◌+◌, ◌≤◌, ◌<◌, ℤ, pos, pos_part, ◌<ℤ◌, ◌=?◌, ◌<?◌, ◌≤?◌, =?-iff, List, Option, some,
  Bool-cases, inl, inr, if◌then◌else◌, length-set, lookup, insert, get_elem?, set, ◌≡◌, ◌≢◌, refl,
  ◌∙◌, sym, arith,
}
use ih_server.Player.Env.{Env, ItemData}
use ih_server.Player.State.{Player}
use ih_server.Player.Resource.{add_item, del_item, head_type}
use ih_server.Player.Equip.{
  Wardrobe, EquipRet, EquipEffect, slots, put_on, take_off, equip_success, equip_slot_empty,
}
use ih_server.Player.Equip.Worn.{
  one_if, worn, Fitted, worn_in-set, worn-insert, worn_in-slots, worn_in-there, worn-lookup,
  get_elem?-some, lookup-Fitted, insert-Fitted,
}
use ih_server.Player.Equip.Bag.{Gear, Countable, count, add_one, del_one}

-- How many of an item the player has, in the bag and on its roles.
abbrev pub holdings : ℤ → Wardrobe → ℕ
holdings k w = count w.bag k + worn k w.roles

-- The items of the table that can be worn have positive ids, are no avatars and are not honor.
abbrev pub Tabled : Env → Type 0
Tabled e =
    (id : ℤ) (item : ItemData)
    → e.item_table id ≡ some item
    → pos 0 <ℤ item.equip_type
    → item.equip_type <ℤ pos 7
    → (pos 0 <ℤ id) × (item.item_type ≢ head_type) × (id ≢ pos 17)

-- A player whose counts are int32s that are not negative, those that it wears included, and whose
-- roles have seven slots or none yet, with items of the table in them.
pub record Dressed (e : Env) (w : Wardrobe) : Type 0 where
  pub countable : Countable w.bag
  pub room : (k : ℤ) → pos 0 <ℤ k → holdings k w ≤ 2147483647
  pub fitted : Fitted w.roles
  pub gear : (k : ℤ) → pos 0 <ℤ k → 0 < worn k w.roles → Gear e k

-- A step that does not panic, keeps the player so and keeps what it has.
pub record Moved (e : Env) (w : Wardrobe) (r : Option (Wardrobe × EquipRet)) : Type 0 where
  pub after : Wardrobe
  pub code : EquipRet
  pub is : r ≡ some (after, code)
  pub dressed : Dressed e after
  pub same : (k : ℤ) → pos 0 <ℤ k → holdings k after ≡ holdings k w

module _ (e : Env) (w : Wardrobe) (h : Dressed e w) where
  pub unmoved : (code : EquipRet) → Moved e w (some (w, code))
  unmoved code = record {
    after = w;
    code = code;
    is = refl;
    dressed = h;
    same = λ k positive. refl;
  }

  module _ (role : ℤ) (l : List ℤ) (i : ℕ) (old v : ℤ) (there : lookup role w.roles ≡ some l)
      (at_i : get_elem? (slots l) i ≡ some old) where
    exchanged :
        (k : ℤ)
        → pos 0 <ℤ k
        → worn k (insert role (set (slots l) i v) w.roles) + one_if old k
          ≡ worn k w.roles + one_if v k
    exchanged k positive =
        let put = worn-insert k role l (set (slots l) i v) w.roles there in
        let slot = worn_in-set k (slots l) i old v at_i in
        omega (arith, put, slot, worn_in-slots k l positive)

    -- The slot gets `v`, and the bag gives it and gets what was in the slot.
    exchange :
        (q : Player) (effects : List EquipEffect)
        → Countable q
        → ((k : ℤ) → pos 0 <ℤ k → count q k + one_if v k ≡ count w.bag k + one_if old k)
        → (pos 0 <ℤ v → Gear e v)
        → Moved e w (
            some (
              record w {
                bag = q;
                roles = insert role (set (slots l) i v) w.roles;
                effects = effects;
              },
              equip_success,
            ))
    exchange q effects countable moved new_gear =
        let kept : (k : ℤ)
            → pos 0 <ℤ k
            → count q k + worn k (insert role (set (slots l) i v) w.roles) ≡ holdings k w =
          λ k positive. omega (arith, exchanged k positive, moved k positive) in
        record {
          after = record w {
            bag = q;
            roles = insert role (set (slots l) i v) w.roles;
            effects = effects;
          };
          code = equip_success;
          is = refl;
          dressed = record {
            countable = countable;
            room = λ k positive. omega (arith, kept k positive, h.room k positive);
            fitted =
                insert-Fitted role (set (slots l) i v) w.roles
                  (length-set (slots l) i v ∙ lookup-Fitted role l w.roles there h.fitted) h.fitted;
            gear = λ k positive is_worn. elim (Bool-cases (v =? k)) [
              | inl same ↦
                  let is : v ≡ k = ground (arith, same, =?-iff v k) in
                  rw (sym is) (new_gear (rw is positive))
              | inr other ↦ h.gear k positive (ground (arith, exchanged k positive, other, is_worn))
            ];
          };
          same = kept;
        }

  -- An item in a slot goes to the bag.
  bag_back :
      (role : ℤ) (l : List ℤ) (i : ℕ) (old : ℤ)
      → lookup role w.roles ≡ some l
      → get_elem? (slots l) i ≡ some old
      → pos 0 <ℤ old
      → let q = (add_item e old (pos 1) w.bag).0 in
        Countable q
        × ((k : ℤ) → pos 0 <ℤ k → count q k ≡ count w.bag k + one_if old k)
        × ((k : ℤ) → pos 0 <ℤ k → count q k ≤ 2147483647)
  bag_back role l i old there at_i positive =
      let slot = worn_in-there (slots l) i old at_i in
      let is_worn : 0 < worn old w.roles =
        omega (arith, slot, worn_in-slots old l positive, worn-lookup old role l w.roles there) in
      let (countable, added) =
        add_one w.bag old h.countable e (h.gear old positive is_worn)
          (omega (arith, h.room old positive, is_worn)) in
      (
        countable,
        λ k up. added k,
        λ k up. ground (arith, added k, h.room k up, h.room old positive, is_worn, =?-iff old k),
      )

  -- What stands in a slot that is not empty goes to the bag.
  back :
      (role : ℤ) (l : List ℤ) (i : ℕ) (old : ℤ)
      → lookup role w.roles ≡ some l
      → get_elem? (slots l) i ≡ some old
      → let q = if pos 0 <? old then (add_item e old (pos 1) w.bag).0 else w.bag in
        Countable q
        × ((k : ℤ) → pos 0 <ℤ k → count q k ≡ count w.bag k + one_if old k)
        × ((k : ℤ) → pos 0 <ℤ k → count q k ≤ 2147483647)
  back role l i old there at_i = elim (Bool-cases (pos 0 <? old)) [
    | inr empty ↦ rw empty (
      h.countable,
      λ k positive. ground (arith, empty, positive, =?-iff old k),
      λ k positive. omega (arith, h.room k positive),
    )
    | inl full ↦ rw full (bag_back role l i old there at_i (ground (arith, full)))
  ]

  pub put_on-Moved :
      (role id t : ℤ) (l : List ℤ)
      → lookup role w.roles ≡ some l
      → pos 0 <ℤ t
      → t <ℤ pos 7
      → pos 0 <ℤ id
      → Gear e id
      → 0 < count w.bag id
      → Moved e w (put_on e role id t (slots l) w)
  unfolding put_on
  put_on-Moved role id t l there low high positive gear some_left =
      let i = pos_part t in
      let full = lookup-Fitted role l w.roles there h.fitted in
      let (old, at_i) = get_elem?-some (slots l) i (ground (arith, full, low, high)) in
      let (countable, added, small) = back role l i old there at_i in
      let q = if pos 0 <? old then (add_item e old (pos 1) w.bag).0 else w.bag in
      let (after, taken) =
        del_one q id countable (omega (arith, added id positive, some_left)) (small id positive) in
      rw (put_on, at_i)
        (exchange role l i old id there at_i (del_item id (pos 1) q).0 _ after
          (λ k up. omega (arith, taken k, added k up)) (λ p. gear))

  pub take_off-Moved :
      (role t : ℤ) (l : List ℤ)
      → lookup role w.roles ≡ some l
      → pos 0 <ℤ t
      → t <ℤ pos 7
      → Moved e w (take_off e role t (slots l) w)
  unfolding take_off
  take_off-Moved role t l there low high =
      let i = pos_part t in
      let full = lookup-Fitted role l w.roles there h.fitted in
      let (old, at_i) = get_elem?-some (slots l) i (ground (arith, full, low, high)) in
      elim (Bool-cases (old ≤? pos 0)) [
        | inl empty ↦ rw (take_off, at_i, empty) (unmoved equip_slot_empty)
        | inr worn_here ↦
            let (countable, added, small) =
              bag_back role l i old there at_i (ground (arith, worn_here)) in
            rw (take_off, at_i, worn_here)
              (exchange role l i old (pos 0) there at_i (add_item e old (pos 1) w.bag).0 _ countable
                (λ k up. ground (arith, added k up, up, =?-iff (pos 0) k))
                (λ p. absurd (omega (arith, p))))
      ]
