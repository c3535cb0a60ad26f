-- ===== src/ItemPool/Traded.antt =====
-- Who has the items of a pool whose clients return only what they were handed.
use mathlib.Core.List.{Perm, append-nil, perm_middle}
use mathlib.Core.List.Perm
use mathlib.Core.Option.{some-injective}
use mathlib.Core.Path.{subst}
use ih_server.Base.{
  ℕ, ◌≤◌, ◌<◌, pos, List, [], ◌∷◌, ◌++◌, Option, some, Bool, true, inl, inr, length, ◌≡◌, ap, ◌∙◌,
  sym, arith, Bool-cases, ◌==◌,
}
use ih_server.ItemPool.{SimpleItemPool, made, init, get_free, recycle}
use ih_server.ItemPool.Stack.{
  InRange, free_items, spec_get, spec_recycle, get_free-InRange, recycle-InRange,
}
use ih_server.ItemPool.Custody.{fresh_InRange}

-- The results of an operation that is known to succeed.
same_results :
    {A B : Type 0} {p q : A} {x y : B}
    → ◌≡◌ {A = Option (A × B)} (some (p, x)) (some (q, y))
    → (p ≡ q) × (x ≡ y)
same_results {A} {B} {p} {q} {x} {y} h =
    let pairs = some-injective (p, x) (q, y) h in
    (ap (λ (z : A × B). z.0) pairs, ap (λ (z : A × B). z.1) pairs)

module _ {Item : Type 0} where
  -- The pools that come of one with the items `new 0`, ..., `new (n - 1)`, each with the items that are
  -- out: those handed out, less those that were returned and accepted.
  pub data Traded (new : ℕ → Item) (n : ℕ) : SimpleItemPool Item → List Item → Type 0 where
    fresh : {p : SimpleItemPool Item} → init new (pos n) ≡ some p → Traded new n p []
    hands :
        {p q : SimpleItemPool Item} {out : List Item} (x : Item)
        → Traded new n p out
        → get_free p ≡ some (q, some x)
        → Traded new n q (x ∷ out)
    returns :
        {p q : SimpleItemPool Item} (before after : List Item) (x : Item)
        → Traded new n p (before ++ x ∷ after)
        → recycle x p ≡ some (q, true)
        → Traded new n q (before ++ after)

  -- The free items and those that are out are those of the pool.
  record Custody (new : ℕ → Item) (n : ℕ) (p : SimpleItemPool Item) (out : List Item) : Type 0 where
    in_range : InRange p
    places : length p.items ≡ n
    items : Perm (free_items p ++ out) (made new 0 n)

  spec_get-some :
      (l r : List Item) (o : Option Item) (x : Item) → spec_get l ≡ (r, o) → o ≡ some x → l ≡ x ∷ r
  unfolding spec_get
  spec_get-some [] r o x h is_x = absurd (ground (arith, h, is_x))
  spec_get-some (y ∷ l) r o x h is_x = ground (arith, h, is_x)

  spec_recycle-true :
      (n : ℕ) (l r : List Item) (b : Bool) (x : Item)
      → spec_recycle n x l ≡ (r, b)
      → b ≡ true
      → r ≡ x ∷ l
  unfolding spec_recycle
  spec_recycle-true n l r b x h is_true = elim (Bool-cases (length l == n)) [
    | inl full ↦ absurd (ground (arith, h, is_true, full))
    | inr room ↦ ground (arith, h, is_true, room)
  ]

  Traded-Custody :
      {new : ℕ → Item} {n : ℕ} {p : SimpleItemPool Item} {out : List Item}
      → 0 < n
      → n ≤ 2147483647
      → Traded new n p out
      → Custody new n p out
  Traded-Custody {new} {n} {p} some_places small (fresh h) =
      let (in_range, all, free) = fresh_InRange new n p some_places small h in
      record {
        in_range = in_range;
        places = all;
        items = rw (append-nil (free_items p), free) (Perm.refl (made new 0 n));
      }
  Traded-Custody {new} {n} some_places small (hands {p} {q} {out} x t h) =
      let c = Traded-Custody some_places small t in
      let (r, o, runs, h', same, spec) = get_free-InRange p c.in_range in
      let (is_q, is_x) = same_results (sym runs ∙ h) in
      let first = spec_get-some (free_items p) (free_items r) o x spec is_x in
      let kept : Custody new n r (x ∷ out) = record {
        in_range = h';
        places = same ∙ c.places;
        items =
            Perm.trans (perm_middle (free_items r) out)
              (subst (λ l. Perm (l ++ out) (made new 0 n)) first c.items);
      } in
      rw (← is_q) kept
  Traded-Custody {new} {n} some_places small (returns {p} {q} before after x t h) =
      let c = Traded-Custody some_places small t in
      let (r, b, runs, h', same, spec) = recycle-InRange x p c.in_range (rw c.places some_places) in
      let (is_q, is_true) = same_results (sym runs ∙ h) in
      let first =
        spec_recycle-true (length p.items) (free_items p) (free_items r) b x spec is_true in
      let kept : Custody new n r (before ++ after) = record {
        in_range = h';
        places = same ∙ c.places;
        items = rw first (
            Perm.trans
              (Perm.symm (
                Perm.trans (Perm.append_left (free_items p) (perm_middle before after))
                  (perm_middle (free_items p) (before ++ after))))
              c.items);
      } in
      rw (← is_q) kept

  -- Where a pool of a positive number of items, an int32, gets back nothing that is not out, its free
  -- items and those that are out are together the items that it was made with: none is lost, and none
  -- is handed out while it is out.
  pub traded-Perm :
      (new : ℕ → Item) (n : ℕ) (p : SimpleItemPool Item) (out : List Item)
      → 0 < n
      → n ≤ 2147483647
      → Traded new n p out
      → Perm (free_items p ++ out) (made new 0 n)
  traded-Perm new n p out some_places small t = (Traded-Custody some_places small t).items
