-- ===== src/RankList.antt =====
-- libs/utils/short_ranklist.go: a bounded ranking, an array of items in the order of their ranks with
-- a map from keys to positions. Its lock makes each operation one step.
pub mod Shift
pub mod Consistent
pub mod Rearrange
pub mod Place
pub mod Update
pub mod Scan
pub mod Order
pub mod Run
use ih_server.Base.{
  ℕ, zero, suc, ◌+◌, ◌-◌, ℤ, pos, negsuc, List, [], ◌∷◌, Option, none, some, Bool, true, false,
  if◌then◌else◌, leb, ltb, ◌<?◌, ◌=?◌, ◌+₃₂◌, ◌==◌, get_elem?, set, replicate, lookup, insert,
  delete, Dict,
}

-- ShortRankItem: what the list asks of an item. Assign copies an item, and New makes one to copy to;
-- `add a b` is `a` after a.Add(b). Keys are the int32s that the program uses.
pub record ShortRankItem (Item : Type 0) : Type 0 where
  pub less : Item → Item → Bool
  pub greater : Item → Item → Bool
  pub get_key : Item → ℤ
  pub add : Item → Item → Item

-- ShortRankList
pub record ShortRankList (Item : Type 0) : Type 0 where
  pub items : List (Option Item)
  pub max_num : ℕ
  pub curr_num : ℕ
  pub keys_map : Dict ℕ

-- An element of the array, `none` for nil and out of range.
abbrev pub at : {Item : Type 0} → List (Option Item) → ℕ → Option Item
at l i = elim (get_elem? l i) [ none ↦ none | some x ↦ x ]

module _ {Item : Type 0} where
  -- Init, of a positive number
  unfoldable pub init : ℕ → Option (ShortRankList Item)
  init zero = none
  init (suc n) =
      some (record { items = replicate (suc n) none; max_num = suc n; curr_num = 0; keys_map = [] })

  -- Clear
  pub clear : ShortRankList Item → ShortRankList Item
  clear s = record s { items = replicate s.max_num none; curr_num = 0; keys_map = [] }

  -- GetRank: the rank from 1, or 0
  unfoldable pub get_rank : ℤ → ShortRankList Item → ℕ
  get_rank k s = elim (lookup k s.keys_map) [ none ↦ 0 | some i ↦ suc i ]

  -- GetByRank, from a positive rank: the item whose key and value it returns
  unfoldable pub get_by_rank : ℕ → ShortRankList Item → Option Item
  get_by_rank r s = if ltb s.curr_num r then none else at s.items (r - 1)

module _ {Item : Type 0} (o : ShortRankItem Item) where
  -- items[b] = items[a]; keys_map[items[b].GetKey()] = b. There is an item at `a` wherever the loops
  -- call it; Go would panic at nil.
  unfoldable pub move : ℕ → ℕ → ShortRankList Item → ShortRankList Item
  move a b s = elim (at s.items a) [
    | none ↦ s
    | some x ↦ record s {
      items = set s.items b (some x);
      keys_map = insert (o.get_key x) b s.keys_map;
    }
  ]

  -- The loop that makes room at `lo`: the `c` items from there move up by one, the last one first.
  unfoldable pub shift_up : ℕ → ℕ → ShortRankList Item → ShortRankList Item
  shift_up zero lo s = s
  shift_up (suc c) lo s = shift_up c lo (move (lo + c) (lo + c + 1) s)

  -- The loop that closes a gap before `suc lo`: the `c` items from there move down by one.
  unfoldable pub shift_down : ℕ → ℕ → ShortRankList Item → ShortRankList Item
  shift_down zero lo s = s
  shift_down (suc c) lo s = shift_down c (suc lo) (move (suc lo) lo s)

  -- GetIndex, from a positive rank
  unfoldable pub get_index : ℕ → ShortRankList Item → ℤ
  get_index r s = elim (get_by_rank r s) [
    | none ↦ negsuc 0
    | some x ↦ elim (lookup (o.get_key x) s.keys_map) [ none ↦ pos 0 | some i ↦ pos i ]
  ]

  abbrev pub beats : Item → Option Item → Bool
  beats x none = false
  beats x (some y) = o.greater x y

  -- The scan to the left from `n`, over the items that `x` is greater than.
  unfoldable pub scan_left : Item → List (Option Item) → ℕ → ℕ
  scan_left x l zero = zero
  scan_left x l (suc n) = let rest = scan_left x l n in if beats x (at l n) then rest else suc n

  -- The scan to the right from `i`, over `c` items at most, to the first that `x` is greater than.
  unfoldable pub scan_right : Item → List (Option Item) → ℕ → ℕ → ℕ
  scan_right x l zero i = i
  scan_right x l (suc c) i =
      let rest = scan_right x l c (suc i) in if beats x (at l i) then i else rest

  -- items[i] = x; keys_map[x.GetKey()] = i
  unfoldable pub place : ℕ → Item → ShortRankList Item → ShortRankList Item
  place i x s = record s {
    items = set s.items i (some x);
    keys_map = insert (o.get_key x) i s.keys_map;
  }

  -- Update, for a key that is not there and a list that is not full.
  unfoldable pub append : Item → ShortRankList Item → ShortRankList Item
  append x s =
      let n = s.curr_num in
      let q = place n x s in
      let i = scan_left x s.items n in
      let r = if i == n then q else place i x (shift_up (n - i) i q) in
      record r { curr_num = suc n }

  -- Update, for the item `old` at `i`.
  unfoldable pub replace : ℕ → Item → Item → ShortRankList Item → ShortRankList Item × Bool
  replace i old x s =
      let up = scan_left x s.items i in
      let down = scan_right x s.items (s.curr_num - suc i) (suc i) - 1 in
      if o.greater x old
      then (place up x (shift_up (i - up) up s), true)
      else if o.less x old
      then (place down x (shift_down (down - i) i s), true)
      else (s, false)

  -- Update
  unfoldable pub update : Item → Bool → ShortRankList Item → ShortRankList Item × Bool
  update x added s = elim (lookup (o.get_key x) s.keys_map) [
    | none ↦ if leb s.max_num s.curr_num then (s, false) else (append x s, true)
    | some i ↦ elim (at s.items i) [
      | none ↦ (s, false)
      | some old ↦ replace i old (if added then o.add x old else x) s
    ]
  ]

  -- Delete
  unfoldable pub remove : ℤ → ShortRankList Item → ShortRankList Item × Bool
  remove k s = elim (lookup k s.keys_map) [
    | none ↦ (s, false)
    | some i ↦
        let q = shift_down (s.curr_num - 1 - i) i s in
        (
          record q {
            items = set q.items (s.curr_num - 1) none;
            keys_map = delete k q.keys_map;
            curr_num = s.curr_num - 1;
          },
          true,
        )
  ]

-- TestShortRankItem, with its Id and its Value
abbrev pub test_short_rank_item : ShortRankItem (ℤ × ℤ)
test_short_rank_item = record {
  less = λ a b. a.1 <? b.1;
  greater = λ a b. b.1 <? a.1;
  get_key = λ a. a.0;
  add = λ a b. if a.0 =? b.0 then (a.0, a.1 +₃₂ b.1) else a;
}
