-- ===== src/ItemPool/Stack.antt =====
-- A pool is a stack of free items, of as many places as it was made with.
use ih_server.Base.{
  ℕ, zero, suc, ◌-◌, ◌≤◌, ◌<◌, pos, negsuc, ◌+₃₂◌, ◌-₃₂◌, ◌+ℤ◌, ◌-ℤ◌, wrap32, List, [], ◌∷◌, Option,
  none, some, Bool, true, false, ◌==◌, Bool-cases, inl, inr, ◌⊎◌, if◌then◌else◌, length, get_elem?,
  set, leb, length-set, ◌≡◌, refl, arith,
}
use ih_server.ItemPool.{SimpleItemPool, get_free, put_at, recycle}

module _ {Item : Type 0} where
  abbrev pub drop : ℕ → List Item → List Item
  drop zero l = l
  drop (suc n) [] = []
  drop (suc n) (x ∷ l) = drop n l

  -- The free items, the next one first.
  abbrev pub free_items : SimpleItemPool Item → List Item
  free_items p = elim p.can_use_start [ pos n ↦ drop n p.items | negsuc n ↦ [] ]

  -- The start is in range or -1, and the number of places is an int32.
  pub record InRange (p : SimpleItemPool Item) : Type 0 where
    pub small : length p.items ≤ 2147483647
    pub start :
        (p.can_use_start ≡ negsuc 0) ⊎ ((n : ℕ) × (p.can_use_start ≡ pos n) × (n < length p.items))

  length-drop : (n : ℕ) (l : List Item) → length (drop n l) ≡ length l - n
  length-drop zero l = omega arith
  length-drop (suc n) [] = omega arith
  length-drop (suc n) (x ∷ l) = omega (arith, length-drop n l)

  drop_all : (n : ℕ) (l : List Item) → length l ≤ n → drop n l ≡ []
  drop_all zero [] h = refl
  drop_all zero (x ∷ l) h = absurd (omega (arith, h))
  drop_all (suc n) [] h = refl
  drop_all (suc n) (x ∷ l) h = drop_all n l (omega (arith, h))

  -- The item at `n` is the first of the rest from there.
  drop_at :
      (n : ℕ) (l : List Item)
      → n < length l
      → (x : Item) × (get_elem? l n ≡ some x) × (drop n l ≡ x ∷ drop (suc n) l)
  drop_at n [] h = absurd (omega (arith, h))
  drop_at zero (x ∷ l) h = (x, refl, refl)
  drop_at (suc n) (x ∷ l) h = drop_at n l (omega (arith, h))

  drop-set :
      (n : ℕ) (l : List Item) (x : Item) → n < length l → drop n (set l n x) ≡ x ∷ drop (suc n) l
  drop-set n [] x h = absurd (omega (arith, h))
  drop-set zero (y ∷ l) x h = refl
  drop-set (suc n) (y ∷ l) x h = drop-set n l x (omega (arith, h))

  -- The stack that a pool promises to be: the next item, or nil where none is free.
  unfoldable pub spec_get : List Item → List Item × Option Item
  spec_get [] = ([], none)
  spec_get (x ∷ l) = (l, some x)

  -- A returned item is the next, and refused where no item is out.
  unfoldable pub spec_recycle : ℕ → Item → List Item → List Item × Bool
  spec_recycle places x l = if length l == places then (l, false) else (x ∷ l, true)

  pub get_free-InRange :
      (p : SimpleItemPool Item)
      → InRange p
      → (q : SimpleItemPool Item) × (o : Option Item) × (get_free p ≡ some (q, o))
        × InRange q
        × (length q.items ≡ length p.items)
        × (spec_get (free_items p) ≡ (free_items q, o))
  unfolding get_free spec_get ◌+₃₂◌ ◌+ℤ◌ wrap32
  get_free-InRange p h = elim h.start [
    | inl used ↦ (p, none, rw used refl, h, refl, rw used refl)
    | inr (n, at_n, lt) ↦
        let (x, is_x, rest) = drop_at n p.items lt in
        elim (Bool-cases (leb (length p.items) (suc n))) [
          | inl last ↦ (
            record p { can_use_start = negsuc 0 },
            some x,
            ground (arith, at_n, is_x, last, h.small),
            record { small = h.small; start = inl refl },
            refl,
            rw (at_n, rest, drop_all (suc n) p.items (ground (arith, last))) refl,
          )
          | inr more ↦ (
            record p { can_use_start = pos (suc n) },
            some x,
            ground (arith, at_n, is_x, more, h.small),
            record { small = h.small; start = inr (suc n, refl, ground (arith, more)) },
            refl,
            rw (at_n, rest) refl,
          )
        ]
  ]

  pub recycle-InRange :
      (item : Item) (p : SimpleItemPool Item)
      → InRange p
      → 0 < length p.items
      → (q : SimpleItemPool Item) × (r : Bool) × (recycle item p ≡ some (q, r))
        × InRange q
        × (length q.items ≡ length p.items)
        × (spec_recycle (length p.items) item (free_items p) ≡ (free_items q, r))
  unfolding recycle put_at spec_recycle ◌-₃₂◌ ◌-ℤ◌ wrap32
  recycle-InRange item p h some_places = elim h.start [
    | inl used ↦
        let n = length p.items - 1 in
        let kept = length-set p.items n item in
        (
          record p { items = set p.items n item; can_use_start = pos n },
          true,
          ground (arith, used, h.small, some_places),
          record {
            small = omega (arith, h.small, kept);
            start = inr (n, refl, omega (arith, kept, some_places));
          },
          kept,
          rw
              (
                used,
                drop-set n p.items item (omega (arith, some_places)),
                drop_all (suc n) p.items (omega (arith, some_places)),
              )
              (ground (arith, some_places)),
        )
    | inr (zero, at_n, lt) ↦ (p, false, rw at_n refl, h, refl, rw at_n (ground arith))
    | inr (suc n, at_n, lt) ↦
        let kept = length-set p.items n item in
        (
          record p { items = set p.items n item; can_use_start = pos n },
          true,
          ground (arith, at_n, h.small, lt),
          record {
            small = omega (arith, h.small, kept);
            start = inr (n, refl, omega (arith, kept, lt));
          },
          kept,
          rw (at_n, drop-set n p.items item (omega (arith, lt)))
              (ground (arith, length-drop (suc n) p.items, lt)),
        )
  ]
