-- ===== src/ItemPool.antt =====
-- src/libs/utils/simple_item_pool.go: a pool of items that are made at first and handed out and
-- returned after that. An operation that reads out of range panics, which `none` is.
pub mod Stack
pub mod Custody
pub mod Traded
use ih_server.Base.{
  ℕ, zero, suc, ◌+◌, ◌-◌, ℤ, pos, negsuc, pos_part, ◌+₃₂◌, ◌-₃₂◌, ◌<?◌, ◌≤?◌, ◌=?◌, List, [], ◌∷◌,
  Option, none, some, Bool, true, false, if◌then◌else◌, length, get_elem?, set,
}

-- SimpleItemPool
pub record SimpleItemPool (Item : Type 0) : Type 0 where
  pub items : List Item
  pub can_use_start : ℤ
  pub can_use_num : ℤ

module _ {Item : Type 0} where
  -- The items that the factory makes, from its `i`-th call on.
  abbrev pub made : (ℕ → Item) → ℕ → ℕ → List Item
  made new i zero = []
  made new i (suc n) = new i ∷ made new (suc i) n

  -- Init; New is the `i`-th item that the factory makes. A negative number is a panic of make.
  unfoldable pub init : (ℕ → Item) → ℤ → Option (SimpleItemPool Item)
  init new (pos n) =
      some (record { items = made new 0 n; can_use_start = pos 0; can_use_num = pos n })
  init new (negsuc n) = none

  -- GetFree; the result is `none` for nil.
  unfoldable pub get_free : SimpleItemPool Item → Option (SimpleItemPool Item × Option Item)
  get_free p =
      if p.can_use_start <? pos 0
      then some (p, none)
      else (elim (get_elem? p.items (pos_part p.can_use_start)) [
        | none ↦ none
        | some item ↦
            let next = p.can_use_start +₃₂ pos 1 in
            some (
              record p { can_use_start = if pos (length p.items) ≤? next then negsuc 0 else next },
              some item,
            )
      ])

  -- this.items[this.can_use_start] = item, at a given start
  unfoldable pub put_at : ℤ → Item → SimpleItemPool Item → Option (SimpleItemPool Item)
  put_at i item p =
      if i <? pos 0
      then none
      else if pos (length p.items) ≤? i
      then none
      else some (record p { items = set p.items (pos_part i) item; can_use_start = i })

  -- Recycle
  unfoldable pub recycle : Item → SimpleItemPool Item → Option (SimpleItemPool Item × Bool)
  recycle item p =
      if p.can_use_start =? pos 0
      then some (p, false)
      else let start =
          if p.can_use_start <? pos 0
          then pos (length p.items) -₃₂ pos 1
          else p.can_use_start -₃₂ pos 1 in
        elim (put_at start item p) [ none ↦ none | some q ↦ some (q, true) ]

  -- HasFree
  unfoldable pub has_free : SimpleItemPool Item → Bool
  has_free p = pos 0 ≤? p.can_use_start
