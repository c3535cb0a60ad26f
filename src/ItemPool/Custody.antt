-- ===== src/ItemPool/Custody.antt =====
-- Pools over sequences of operations.
use ih_server.Base.{
  ℕ, zero, suc, ◌≤◌, ◌<◌, pos, List, [], ◌∷◌, Option, none, some, Bool, inr, length, ◌≡◌, refl, ap,
  ◌∙◌, arith,
}
use ih_server.ItemPool.{SimpleItemPool, made, init, get_free, recycle}
use ih_server.ItemPool.Stack.{
  InRange, free_items, spec_get, spec_recycle, get_free-InRange, recycle-InRange,
}

pub data PoolOp (Item : Type 0) : Type 0 where
  ask : PoolOp Item
  give_back : Item → PoolOp Item

pub data PoolAnswer (Item : Type 0) : Type 0 where
  handed : Option Item → PoolAnswer Item
  took : Bool → PoolAnswer Item

module _ {Item : Type 0} where
  abbrev pool_step :
      PoolOp Item → SimpleItemPool Item → Option (SimpleItemPool Item × PoolAnswer Item)
  pool_step ask p = elim (get_free p) [ none ↦ none | some (q, o) ↦ some (q, handed o) ]
  pool_step (give_back x) p = elim (recycle x p) [ none ↦ none | some (q, r) ↦ some (q, took r) ]

  -- The answers of a pool to a sequence of requests; `none` is a panic.
  unfoldable pub pool_run :
      List (PoolOp Item) → SimpleItemPool Item → Option (List (PoolAnswer Item))
  pool_run [] p = some []
  pool_run (op ∷ ops) p = elim (pool_step op p) [
    | none ↦ none
    | some (q, a) ↦ elim (pool_run ops q) [ none ↦ none | some l ↦ some (a ∷ l) ]
  ]

  abbrev spec_step : ℕ → PoolOp Item → List Item → List Item × PoolAnswer Item
  spec_step places ask l = let (r, o) = spec_get l in (r, handed o)
  spec_step places (give_back x) l = let (r, b) = spec_recycle places x l in (r, took b)

  -- The answers of the stack of free items.
  unfoldable pub spec_run : ℕ → List (PoolOp Item) → List Item → List (PoolAnswer Item)
  spec_run places [] l = []
  spec_run places (op ∷ ops) l =
      (spec_step places op l).1 ∷ spec_run places ops (spec_step places op l).0

  step_refines :
      (op : PoolOp Item) (p : SimpleItemPool Item)
      → InRange p
      → 0 < length p.items
      → (q : SimpleItemPool Item) × (a : PoolAnswer Item) × (pool_step op p ≡ some (q, a))
        × InRange q
        × (length q.items ≡ length p.items)
        × (spec_step (length p.items) op (free_items p) ≡ (free_items q, a))
  step_refines ask p h places =
      let (q, o, runs, h', same, spec) = get_free-InRange p h in
      (q, handed o, rw (pool_step, runs) refl, h', same, rw (spec_step, spec) refl)
  step_refines (give_back x) p h places =
      let (q, r, runs, h', same, spec) = recycle-InRange x p h places in
      (q, took r, rw (pool_step, runs) refl, h', same, rw (spec_step, spec) refl)

  run_refines :
      (places : ℕ) (ops : List (PoolOp Item)) (p : SimpleItemPool Item)
      → InRange p
      → length p.items ≡ places
      → 0 < places
      → pool_run ops p ≡ some (spec_run places ops (free_items p))
  unfolding pool_run spec_run
  run_refines places [] p h all some_places = refl
  run_refines places (op ∷ ops) p h all some_places =
      let (q, a, runs, h', same, spec) = step_refines op p h (rw all some_places) in
      let rest = run_refines places ops q h' (same ∙ all) some_places in
      rw (pool_run, runs, rest, spec_run, ← all, spec) refl

  length-made : (new : ℕ → Item) (i n : ℕ) → length (made new i n) ≡ n
  length-made new i zero = refl
  length-made new i (suc n) = ap suc (length-made new (suc i) n)

  -- A new pool is in range and has its items free.
  pub fresh_InRange :
      (new : ℕ → Item) (n : ℕ) (p : SimpleItemPool Item)
      → 0 < n
      → n ≤ 2147483647
      → init new (pos n) ≡ some p
      → InRange p × (length p.items ≡ n) × (free_items p ≡ made new 0 n)
  unfolding init
  fresh_InRange new n p places small h =
      let start : SimpleItemPool Item = record {
        items = made new 0 n;
        can_use_start = pos 0;
        can_use_num = pos n;
      } in
      let all = length-made new 0 n in
      let same : start ≡ p = ground (arith, h) in
      rw (← same) (
        record {
          small = omega (arith, all, small);
          start = inr (0, refl, omega (arith, all, places));
        },
        all,
        refl,
      )

  -- A pool that Init made of a positive number of items, an int32, answers every sequence of requests
  -- as the stack of these items does, and does not panic.
  pub pool_run-spec_run :
      (new : ℕ → Item) (n : ℕ) (p : SimpleItemPool Item) (ops : List (PoolOp Item))
      → 0 < n
      → n ≤ 2147483647
      → init new (pos n) ≡ some p
      → pool_run ops p ≡ some (spec_run n ops (made new 0 n))
  pool_run-spec_run new n p ops places small h =
      let (in_range, all, free) = fresh_InRange new n p places small h in
      rw (← free) (run_refines n ops p in_range all places)
