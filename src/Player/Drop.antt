-- ===== src/Player/Drop.antt =====
-- drop_item of src/hall_server/player_draw_card.go, rand31n_from_range of src/hall_server/utils.go, and
-- how Load of src/table_config/table_drop.go groups the rows.
pub mod Load
pub mod Range
pub mod Chosen
use ih_server.Base.{
  ℕ, zero, suc, ℤ, pos, pos_part, ◌+₃₂◌, ◌-₃₂◌, ◌<?◌, ◌≤?◌, ◌=?◌, List, [], ◌∷◌, ◌++◌, Option, none,
  some, is_some, Bool, true, false, ◌&&◌, ◌||◌, if◌then◌else◌, lookup, insert, Dict, contains,
}
use ih_server.Player.Env.{Env}
use ih_server.Player.State.{Player, value_or_zero}
use ih_server.Player.Resource.ById.{add_resource}

-- XmlDropItem and DropTypeLib
pub record DropItem : Type 0 where
  pub group_id : ℤ
  pub drop_item_id : ℤ
  pub weight : ℤ
  pub min : ℤ
  pub max : ℤ

pub record DropTypeLib : Type 0 where
  pub drop_lib_type : ℤ
  pub total_count : ℤ
  pub total_weight : ℤ
  pub drop_items : List DropItem

-- Load, its first loop over the rows, which are not nil: the counts and the weights of the groups.
unfoldable pub count_row : DropItem → Dict DropTypeLib → Dict DropTypeLib
count_row d m = elim (lookup d.group_id m) [
  | none ↦
      insert d.group_id
        (record {
          drop_lib_type = d.group_id;
          total_count = pos 1;
          total_weight = d.weight;
          drop_items = [];
        })
        m
  | some lib ↦
      insert d.group_id
        (record lib {
          total_count = lib.total_count +₃₂ pos 1;
          total_weight = lib.total_weight +₃₂ d.weight;
        })
        m
]

unfoldable pub count_rows : List DropItem → Dict DropTypeLib → Dict DropTypeLib
count_rows [] m = m
count_rows (d ∷ l) m = count_rows l (count_row d m)

-- Its second loop: the rows of the groups.
unfoldable pub append_row : DropItem → Dict DropTypeLib → Dict DropTypeLib
append_row d m = elim (lookup d.group_id m) [
  | none ↦ m
  | some lib ↦ insert d.group_id (record lib { drop_items = lib.drop_items ++ d ∷ [] }) m
]

unfoldable pub append_rows : List DropItem → Dict DropTypeLib → Dict DropTypeLib
append_rows [] m = m
append_rows (d ∷ l) m = append_rows l (append_row d m)

-- Load, after the parsing
unfoldable pub load : List DropItem → Dict DropTypeLib
load l = append_rows l (count_rows l [])

-- rand.Int31n, one function for each draw of a drop: 0 for the weights, and the number of the rows that
-- are left for the count of a row; and the roles: whether GetCards finds a card, and new_role of it.
pub record DropEnv : Type 0 where
  pub int31n : ℕ → ℤ → ℤ
  pub has_cards : ℤ → Bool
  pub new_role : ℤ → Player → Player

-- rand31n_from_range; `none` is the panic of Int31n at a number that is not positive.
unfoldable pub rand31n_from_range : (ℤ → ℤ) → ℤ → ℤ → Option ℤ
rand31n_from_range int31n min max =
    if max <? min
    then some (pos 0)
    else if min =? max
    then some min
    else if max -₃₂ min +₃₂ pos 1 ≤? pos 0
    then none
    else some (int31n (max -₃₂ min +₃₂ pos 1) +₃₂ min)

-- A number of roles of a card.
unfoldable pub new_roles : DropEnv → ℕ → ℤ → Player → Player
new_roles m zero id p = p
new_roles m (suc n) id p = new_roles m n id (m.new_role id p)

-- What a drop gives where it is to be added; `false` where the item is no resource.
unfoldable pub give_drop : Env → DropEnv → Bool → ℤ → ℤ → Player → Player × Bool
give_drop e m badd id num p =
    if is_some (e.item_table id)
    then (if badd then add_resource e id num p else (p, true))
    else (if badd && m.has_cards id then new_roles m (pos_part num) id p else p, true)

-- Whether an id is in a map that may be nil.
abbrev is_used : Option (List ℤ) → ℤ → Bool
is_used none id = false
is_used (some ids) id = contains id ids

-- The loop of drop_item over so many rows; the outer `none` is a panic, the inner one a nil item.
unfoldable pub drop_loop :
    Env
    → DropEnv
    → Bool
    → Option (List ℤ)
    → ℕ
    → List DropItem
    → ℤ
    → Bool
    → ℤ
    → Player
    → Option (Player × Option (ℤ × ℤ))
drop_loop e m badd used zero l r get_same check_cnt p = some (p, none)
drop_loop e m badd used (suc n) [] r get_same check_cnt p = none
drop_loop e m badd used (suc n) (d ∷ l) r get_same check_cnt p =
    elim ((r <? d.weight) || get_same) [
      | false ↦ drop_loop e m badd used n l (r -₃₂ d.weight) get_same check_cnt p
      | true ↦ elim (d.drop_item_id =? pos 0) [
        | true ↦ some (p, none)
        | false ↦ elim (is_used used d.drop_item_id) [
          | true ↦ elim (check_cnt -₃₂ pos 1 ≤? pos 0) [
            | true ↦ some (p, none)
            | false ↦ drop_loop e m badd used n l r true (check_cnt -₃₂ pos 1) p
          ]
          | false ↦ elim (rand31n_from_range (m.int31n (suc n)) d.min d.max) [
            | none ↦ none
            | some num ↦ elim (give_drop e m badd d.drop_item_id num p).1 [
              | true ↦
                  some ((give_drop e m badd d.drop_item_id num p).0, some (d.drop_item_id, num))
              | false ↦
                  drop_loop e m badd used n l r get_same check_cnt
                    (give_drop e m badd d.drop_item_id num p).0
            ]
          ]
        ]
      ]
    ]

-- The map tmp_cache_items, with the item that was dropped.
abbrev pub note_drop : Option (ℤ × ℤ) → Option (Dict ℤ) → Option (Dict ℤ)
note_drop none cache = cache
note_drop (some item) none = none
note_drop (some (id, num)) (some c) = some (insert id (value_or_zero (lookup id c) +₃₂ num) c)

-- drop_item: the player, tmp_cache_items, and the item.
unfoldable pub drop_item :
    Env
    → DropEnv
    → DropTypeLib
    → Bool
    → Option (List ℤ)
    → Option (Dict ℤ)
    → Player
    → Option (Player × Option (Dict ℤ) × Option (ℤ × ℤ))
drop_item e m lib badd used cache p =
    if lib.total_weight ≤? pos 0
    then none
    else elim (drop_loop e m badd used (pos_part lib.total_count) lib.drop_items
        (m.int31n 0 lib.total_weight) false lib.total_count p) [
          | none ↦ none
          | some (q, item) ↦ some (q, note_drop item cache, item)
        ]

-- drop_item_by_id; `false` where the group is missing.
unfoldable pub drop_item_by_id :
    Env
    → DropEnv
    → Dict DropTypeLib
    → ℤ
    → Bool
    → Option (List ℤ)
    → Option (Dict ℤ)
    → Player
    → Option (Player × Option (Dict ℤ) × Bool × Option (ℤ × ℤ))
drop_item_by_id e m table id add used cache p = elim (lookup id table) [
  | none ↦ some (p, cache, false, none)
  | some lib ↦ elim (drop_item e m lib add used cache p) [
    | none ↦ none
    | some (q, c, item) ↦ some (q, c, true, item)
  ]
]
