-- ===== src/Tests/Equipment.antt =====
-- Equipment at concrete inputs.
use ih_server.Base.{
  ℤ, pos, ◌<ℤ◌, ◌=?◌, =?-iff, [], ◌∷◌, none, some, if◌then◌else◌, lookup, Bool-cases, inl, inr, ◌⊎◌,
  ◌≡◌, refl, ap, arith,
}
use ih_server.Player.Env.{Env, ItemData}
use ih_server.Player.Equip.{Wardrobe}
use ih_server.Player.Equip.Kept.{holdings, Tabled, Dressed}
use ih_server.Player.Equip.Run.{to_equip, to_unequip, handle_all, handle_all-Dressed}
use ih_server.Tests.World.{world, hero}

abbrev sword : ItemData
sword = record { item_type = pos 2; equip_type = pos 2; quality = pos 1; sell_reward = none }

abbrev smithy : Env
smithy = record world {
  item_table =
      λ id. if id =? pos 200 then some sword else if id =? pos 201 then some sword else none;
}

abbrev knight : Wardrobe
knight = record {
  bag = record hero { items = (pos 200, pos 2) ∷ (pos 201, pos 1) ∷ [] };
  roles = (pos 1, pos 0 ∷ pos 0 ∷ pos 200 ∷ pos 0 ∷ pos 0 ∷ pos 0 ∷ pos 0 ∷ []) ∷ (pos 2, []) ∷ [];
  effects = [];
}

-- The two swords are all that is in the table.
swords :
    (id : ℤ) (item : ItemData)
    → smithy.item_table id ≡ some item
    → (item ≡ sword) × ((id ≡ pos 200) ⊎ (id ≡ pos 201))
swords id item row = elim (Bool-cases (id =? pos 200)) [
  | inl first ↦ ground (arith, row, first, =?-iff id (pos 200))
  | inr other ↦ ground (arith, row, other, =?-iff id (pos 201))
]

smithy-Tabled : Tabled smithy
smithy-Tabled id item row low high =
    let (is_sword, is_id) = swords id item row in
    let is_type = ap (λ (i : ItemData). i.item_type) is_sword in
    (ground (arith, is_id), ground (arith, is_type), ground (arith, is_id))

knight-Dressed : Dressed smithy knight
unfolding lookup
knight-Dressed = record {
  countable = λ k. ground arith;
  room = λ k positive. ground arith;
  fitted = (inr refl, (inl refl, tt));
  gear = λ k positive is_worn. elim (Bool-cases (k =? pos 200)) [
    | inl first ↦
        (sword, ground (arith, first), ground arith, ground (arith, first, =?-iff k (pos 200)))
    | inr other ↦ absurd (
        ground (
          arith,
          other,
          is_worn,
          positive,
          =?-iff (pos 0) k,
          =?-iff (pos 200) k,
          =?-iff k (pos 200),
        ))
  ];
}

handle_all-Dressed_example :
    (v : Wardrobe) × (handle_all smithy
        (to_equip (pos 1) (pos 201) ∷ to_equip (pos 2) (pos 200) ∷ to_unequip (pos 1) (pos 2) ∷ [])
        knight
      ≡ some v)
    × Dressed smithy v
    × ((k : ℤ) → pos 0 <ℤ k → holdings k v ≡ holdings k knight)
handle_all-Dressed_example =
    handle_all-Dressed smithy
      (to_equip (pos 1) (pos 201) ∷ to_equip (pos 2) (pos 200) ∷ to_unequip (pos 1) (pos 2) ∷ [])
      knight smithy-Tabled knight-Dressed
