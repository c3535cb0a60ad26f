-- ===== src/Player/Equip/Run.antt =====
-- Whatever a client equips and unequips, no item is lost or gained.
use ih_server.Base.{
  ◌<◌, ℤ, pos, ◌<ℤ◌, ◌<?◌, ◌≤?◌, List, [], ◌∷◌, Option, none, some, Option-cases, Bool-cases, inl,
  inr, ◌||◌, lookup, ◌≡◌, refl, ap, ◌∙◌, arith,
}
use ih_server.Player.Env.{Env}
use ih_server.Player.State.{value_or_zero}
use ih_server.Player.Resource.{get_item}
use ih_server.Player.Equip.{
  Wardrobe, EquipRet, equip, unequip, equip_slot_empty, equip_item_not_found, equip_num_not_enough,
  equip_table_id_not_found, equip_type_not_match, equip_role_not_found, equip_type_invalid,
  equip_type_max,
}
use ih_server.Player.Equip.Bag.{count}
use ih_server.Player.Equip.Kept.{
  holdings, Tabled, Dressed, Moved, unmoved, put_on-Moved, take_off-Moved,
}

module _ (e : Env) (w : Wardrobe) (h : Dressed e w) where
  equip-Moved : Tabled e → (role id : ℤ) → Moved e w (equip e role id w)
  unfolding equip
  equip-Moved tabled role id = elim (Option-cases (lookup id w.bag.items)) [
    | inl missing ↦ rw (equip, missing) (unmoved e w h equip_item_not_found)
    | inr (n, there) ↦ elim (Bool-cases (n ≤? pos 0)) [
      | inl few ↦ rw (equip, there, few) (unmoved e w h equip_num_not_enough)
      | inr enough ↦ elim (Option-cases (e.item_table id)) [
        | inl no_row ↦ rw (equip, there, enough, no_row) (unmoved e w h equip_table_id_not_found)
        | inr (item, row) ↦
            elim (Bool-cases ((item.equip_type <? pos 1) || (equip_type_max ≤? item.equip_type))) [
              | inl wrong ↦
                  rw (equip, there, enough, row, wrong) (unmoved e w h equip_type_not_match)
              | inr fits ↦ elim (Option-cases (lookup role w.roles)) [
                | inl no_role ↦
                    rw (equip, there, enough, row, fits, no_role)
                      (unmoved e w h equip_role_not_found)
                | inr (l, at_role) ↦
                    let low : pos 0 <ℤ item.equip_type = ground (arith, fits) in
                    let high : item.equip_type <ℤ pos 7 = ground (arith, fits) in
                    let (positive, plain, no_honor) = tabled id item row low high in
                    let is_n : get_item w.bag id ≡ n = ap value_or_zero there in
                    let left : 0 < count w.bag id = ground (arith, is_n, enough) in
                    rw (equip, there, enough, row, fits, at_role)
                      (put_on-Moved e w h role id item.equip_type l at_role low high positive
                        (item, row, plain, no_honor) left)
              ]
            ]
      ]
    ]
  ]

  unequip-Moved : (role t : ℤ) → Moved e w (unequip e role t w)
  unfolding unequip
  unequip-Moved role t = elim (Option-cases (lookup role w.roles)) [
    | inl no_role ↦ rw (unequip, no_role) (unmoved e w h equip_role_not_found)
    | inr ([], at_role) ↦ rw (unequip, at_role) (unmoved e w h equip_slot_empty)
    | inr (x ∷ l, at_role) ↦ elim (Bool-cases ((t <? pos 1) || (equip_type_max ≤? t))) [
      | inl wrong ↦ rw (unequip, at_role, wrong) (unmoved e w h equip_type_invalid)
      | inr fits ↦
          rw (unequip, at_role, fits)
            (take_off-Moved e w h role t (x ∷ l) at_role (ground (arith, fits))
              (ground (arith, fits)))
    ]
  ]

-- The requests of a client, and a sequence of them; `none` is a panic.
pub data Request : Type 0 where
  to_equip to_unequip : ℤ → ℤ → Request

abbrev pub handle : Env → Request → Wardrobe → Option (Wardrobe × EquipRet)
handle e (to_equip role id) w = equip e role id w
handle e (to_unequip role t) w = unequip e role t w

unfoldable pub handle_all : Env → List Request → Wardrobe → Option Wardrobe
handle_all e [] w = some w
handle_all e (r ∷ rs) w = elim (handle e r w) [ none ↦ none | some (v, code) ↦ handle_all e rs v ]

handle-Moved :
    (e : Env) (w : Wardrobe) → Tabled e → Dressed e w → (r : Request) → Moved e w (handle e r w)
handle-Moved e w tabled h (to_equip role id) = equip-Moved e w h tabled role id
handle-Moved e w tabled h (to_unequip role t) = unequip-Moved e w h role t

-- Where the items that can be worn have positive ids, are no avatars and are not honor: whatever a
-- client equips and unequips, of a player whose counts are int32s that are not negative, those that
-- it wears included, and whose roles have seven slots or none yet with items of the table in them,
-- no request panics, the player stays so, and has as many of every item of a positive id, in the bag
-- and on its roles together, as before.
pub handle_all-Dressed :
    (e : Env) (rs : List Request) (w : Wardrobe)
    → Tabled e
    → Dressed e w
    → (v : Wardrobe) × (handle_all e rs w ≡ some v)
      × Dressed e v
      × ((k : ℤ) → pos 0 <ℤ k → holdings k v ≡ holdings k w)
unfolding handle_all
handle_all-Dressed e [] w tabled h = (w, refl, h, λ k positive. refl)
handle_all-Dressed e (r ∷ rs) w tabled h =
    let m = handle-Moved e w tabled h r in
    let (v, is_v, dressed, same) = handle_all-Dressed e rs m.after tabled m.dressed in
    (v, rw (handle_all, m.is) is_v, dressed, λ k positive. same k positive ∙ m.same k positive)
