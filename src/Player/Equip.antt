-- ===== src/Player/Equip.antt =====
-- src/hall_server/player_item.go: equip and unequip, which move items between the bag of a player and
-- the slots of its roles.
pub mod Worn
pub mod Bag
pub mod Kept
pub mod Run
use ih_server.Base.{
  ℤ, pos, pos_part, ◌<?◌, ◌≤?◌, List, [], ◌∷◌, ◌++◌, Option, none, some, ◌||◌, if◌then◌else◌,
  lookup, insert, Dict, get_elem?, set, replicate,
}
use ih_server.Player.Env.{Env}
use ih_server.Player.State.{Player}
use ih_server.Player.Resource.{add_item, del_item}

-- EQUIP_TYPE_MAX
abbrev pub equip_type_max : ℤ
equip_type_max = pos 7

-- What the two handlers send and call, besides what add_item and del_item note in the player.
pub data EquipEffect : Type 0 where
  id_update : ℤ → EquipEffect
  item_equip : ℤ → ℤ → ℤ → EquipEffect
  item_unequip : ℤ → ℤ → EquipEffect
  update_role_power_rank : ℤ → EquipEffect
  check_defense_power_update : EquipEffect

-- The player, and the Equip of each of its roles; a nil slice is an empty one, which the handlers
-- treat alike.
pub record Wardrobe : Type 0 where
  pub bag : Player
  pub roles : Dict (List ℤ)
  pub effects : List EquipEffect

pub data EquipRet : Type 0 where
  equip_success equip_item_not_found equip_num_not_enough equip_table_id_not_found : EquipRet
  equip_type_not_match equip_role_not_found equip_slot_empty equip_type_invalid : EquipRet

-- The slots of a role: those that are nil or empty are made.
abbrev pub slots : List ℤ → List ℤ
slots [] = replicate 7 (pos 0)
slots (x ∷ l) = x ∷ l

-- equip, from the slots of the role on; `none` is an index out of range.
unfoldable pub put_on : Env → ℤ → ℤ → ℤ → List ℤ → Wardrobe → Option (Wardrobe × EquipRet)
put_on e role_id equip_id equip_type equips w = elim (get_elem? equips (pos_part equip_type)) [
  | none ↦ none
  | some old ↦
      let p = if pos 0 <? old then (add_item e old (pos 1) w.bag).0 else w.bag in
      some (
        record w {
          bag = (del_item equip_id (pos 1) p).0;
          roles = insert role_id (set equips (pos_part equip_type) equip_id) w.roles;
          effects =
              w.effects
              ++ id_update role_id
                ∷ item_equip role_id equip_id equip_type
                ∷ update_role_power_rank role_id
                ∷ check_defense_power_update
                ∷ [];
        },
        equip_success,
      )
]

-- equip
unfoldable pub equip : Env → ℤ → ℤ → Wardrobe → Option (Wardrobe × EquipRet)
equip e role_id equip_id w = elim (lookup equip_id w.bag.items) [
  | none ↦ some (w, equip_item_not_found)
  | some n ↦ if n ≤? pos 0 then some (w, equip_num_not_enough) else elim (e.item_table equip_id) [
    | none ↦ some (w, equip_table_id_not_found)
    | some item ↦
        if (item.equip_type <? pos 1) || (equip_type_max ≤? item.equip_type)
        then some (w, equip_type_not_match)
        else elim (lookup role_id w.roles) [
          | none ↦ some (w, equip_role_not_found)
          | some equips ↦ put_on e role_id equip_id item.equip_type (slots equips) w
        ]
  ]
]

-- unequip, from the slots of the role on
unfoldable pub take_off : Env → ℤ → ℤ → List ℤ → Wardrobe → Option (Wardrobe × EquipRet)
take_off e role_id equip_type equips w = elim (get_elem? equips (pos_part equip_type)) [
  | none ↦ none
  | some old ↦
      if old ≤? pos 0
      then some (w, equip_slot_empty)
      else some (
        record w {
          bag = (add_item e old (pos 1) w.bag).0;
          roles = insert role_id (set equips (pos_part equip_type) (pos 0)) w.roles;
          effects =
              w.effects
              ++ id_update role_id
                ∷ item_unequip role_id equip_type
                ∷ update_role_power_rank role_id
                ∷ check_defense_power_update
                ∷ [];
        },
        equip_success,
      )
]

-- unequip
unfoldable pub unequip : Env → ℤ → ℤ → Wardrobe → Option (Wardrobe × EquipRet)
unequip e role_id equip_type w = elim (lookup role_id w.roles) [
  | none ↦ some (w, equip_role_not_found)
  | some [] ↦ some (w, equip_slot_empty)
  | some (x ∷ l) ↦
      if (equip_type <? pos 1) || (equip_type_max ≤? equip_type)
      then some (w, equip_type_invalid)
      else take_off e role_id equip_type (x ∷ l) w
]
