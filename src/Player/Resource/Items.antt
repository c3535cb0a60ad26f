-- ===== src/Player/Resource/Items.antt =====
-- add_item, del_item and check_and_send_items_change: the counts of items, and the record of their
-- changes that is sent to the client.
use ih_server.Base.{
  ℤ, pos, negsuc, ◌+ℤ◌, ◌-ℤ◌, ◌+₃₂◌, ◌-₃₂◌, neg32, wrap32, wrap32-eq, +ℤ_parts, -ℤ_parts,
  eq_of_parts, IsInt32, ◌≤ℤ◌, ◌<ℤ◌, ◌<?◌, ◌=?◌, =?-iff, max_int32, Dict, lookup, insert, delete,
  lookup-insert, lookup-delete, Option, none, some, if◌then◌else◌, ◌≡◌, arith,
}
use ih_server.Player.Env.{ItemData}
use ih_server.Player.State.{Player, value_or_zero}
use ih_server.Player.Resource.{changes, note_change, stock, head_type}
use ih_server.Player.Resource.Money.{saturate}

-- What is noted of an item since the last message.
abbrev pub noted : Player → ℤ → ℤ
noted p id = value_or_zero (lookup id (changes p.items_changed_info))

-- No count is negative or too large for an int32.
abbrev pub Counted : (ℤ → ℤ) → Type 0
Counted f = (id : ℤ) → (pos 0 ≤ℤ f id) × IsInt32 (f id)

zero_add32 : (d : ℤ) → IsInt32 d → pos 0 +₃₂ d ≡ d
unfolding ◌+₃₂◌
zero_add32 d h =
    let e : pos 0 +ℤ d ≡ d = omega (arith, eq_of_parts (pos 0 +ℤ d) d, +ℤ_parts (pos 0) d) in
    rw e (wrap32-eq d h)

pub add32_exact : (a b : ℤ) → IsInt32 (a +ℤ b) → a +₃₂ b ≡ a +ℤ b
unfolding ◌+₃₂◌
add32_exact a b h = wrap32-eq (a +ℤ b) h

pub note_change_lem :
    (id d j : ℤ) (m : Dict ℤ)
    → IsInt32 d
    → value_or_zero (lookup j (note_change id d m))
      ≡ (if id =? j then value_or_zero (lookup id m) +₃₂ d else value_or_zero (lookup j m))
unfolding note_change
note_change_lem id d j m h = ground (
  arith,
  lookup-insert id j d m,
  lookup-insert id j (value_or_zero (lookup id m) +₃₂ d) m,
  lookup-delete id j m,
  =?-iff id j,
  =?-iff (value_or_zero (lookup id m) +₃₂ d) (pos 0),
  zero_add32 d h,
)

-- The count of an item after an addition: an avatar is held once, and a count stops at MaxInt32.
abbrev pub stocked : ItemData → Option ℤ → ℤ → ℤ
stocked item none c = if item.item_type =? head_type then pos 1 else c
stocked item (some old) c = if item.item_type =? head_type then old else saturate (old +ℤ c)

sum_wraps :
    (a b : ℤ)
    → IsInt32 a
    → IsInt32 b
    → pos 0 ≤ℤ a
    → pos 0 ≤ℤ b
    → ((a +₃₂ b <? pos 0) ≡ (max_int32 <? a +ℤ b)) × (max_int32 -₃₂ a ≡ max_int32 -ℤ a)
unfolding ◌+₃₂◌ ◌-₃₂◌ wrap32 ◌+ℤ◌ ◌-ℤ◌
sum_wraps (pos a) (pos b) h k m n = ground arith
sum_wraps (negsuc a) b h k m n = absurd (omega arith)
sum_wraps (pos a) (negsuc b) h k m n = absurd (omega arith)

module _ (item : ItemData) (id c : ℤ) (m : Dict ℤ) (h : IsInt32 c) (n : pos 0 ≤ℤ c) where
  pub stock_lem :
      (j : ℤ)
      → (o : Option ℤ) → lookup id m ≡ o
      → pos 0 ≤ℤ value_or_zero o
      → IsInt32 (value_or_zero o)
      → (value_or_zero (lookup j (stock item id c m).0)
          ≡ (if id =? j then stocked item (lookup id m) c else value_or_zero (lookup j m)))
        × ((stock item id c m).1 ≡ stocked item (lookup id m) c -ℤ value_or_zero (lookup id m))
        × (pos 0 ≤ℤ stocked item (lookup id m) c)
        × IsInt32 (stocked item (lookup id m) c)
        × (pos 0 ≤ℤ (stock item id c m).1)
  unfolding stock
  stock_lem j none e k i = ground (
    arith,
    lookup-insert id j (pos 1) m,
    lookup-insert id j c m,
    =?-iff item.item_type head_type,
    -ℤ_parts (pos 1) (pos 0),
    -ℤ_parts c (pos 0),
    eq_of_parts (c -ℤ pos 0) c,
    eq_of_parts (pos 1 -ℤ pos 0) (pos 1),
  )
  stock_lem j (some old) e k i = ground (
    arith,
    lookup-insert id j max_int32 m,
    lookup-insert id j (old +₃₂ c) m,
    =?-iff id j,
    =?-iff item.item_type head_type,
    sum_wraps old c i h k n,
    add32_exact old c,
    +ℤ_parts old c,
    -ℤ_parts old old,
    -ℤ_parts max_int32 old,
    -ℤ_parts (old +ℤ c) old,
    eq_of_parts (old -ℤ old) (pos 0),
    eq_of_parts (old +ℤ c -ℤ old) c,
  )

-- What is taken off is negated and added, both exactly.
pub taken_exact :
    (c n : ℤ)
    → pos 0 <ℤ n
    → n ≤ℤ c
    → IsInt32 c
    → IsInt32 (neg32 n) × (c +₃₂ neg32 n ≡ c +ℤ neg32 n) × (c +ℤ neg32 n ≡ c -ℤ n)
unfolding ◌+₃₂◌ neg32 ◌-₃₂◌ wrap32 ◌+ℤ◌ ◌-ℤ◌
taken_exact (pos a) (pos b) h k m = ground arith
taken_exact (negsuc a) b h k m = absurd (omega arith)
taken_exact (pos a) (negsuc b) h k m = absurd (omega arith)

-- The items that del_item leaves.
pub del_counts :
    (id c n j : ℤ) (m : Dict ℤ)
    → lookup id m ≡ some c
    → pos 0 <ℤ n
    → n ≤ℤ c
    → IsInt32 c
    → value_or_zero (lookup j (if c =? n then delete id m else insert id (c +₃₂ neg32 n) m))
      ≡ (if id =? j then c +ℤ neg32 n else value_or_zero (lookup j m))
del_counts id c n j m e h k i = ground (
  arith,
  taken_exact c n h k i,
  -ℤ_parts c n,
  eq_of_parts (c -ℤ n) (pos 0),
  =?-iff c n,
  lookup-delete id j m,
  lookup-insert id j (c +₃₂ neg32 n) m,
)
