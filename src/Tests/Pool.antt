-- ===== src/Tests/Pool.antt =====
-- A pool of items at concrete inputs.
use mathlib.Core.List.{Perm}
use ih_server.Base.{
  ℕ, ◌+◌, pos, negsuc, ◌+₃₂◌, ◌-₃₂◌, ◌+ℤ◌, ◌-ℤ◌, wrap32, List, [], ◌∷◌, ◌++◌, none, some, true,
  false, ◌≡◌, refl, arith,
}
use ih_server.ItemPool.{SimpleItemPool, made, init, get_free, put_at, recycle, has_free}
use ih_server.ItemPool.Stack.{free_items, spec_get, spec_recycle}
use ih_server.ItemPool.Custody.{
  PoolOp, ask, give_back, handed, took, pool_run, spec_run, pool_run-spec_run,
}
use ih_server.ItemPool.Traded.{Traded, fresh, hands, returns, traded-Perm}

-- The factory numbers its items from 10.
abbrev new_item : ℕ → ℕ
new_item i = i + 10

abbrev two_items : SimpleItemPool ℕ
two_items = record { items = 10 ∷ 11 ∷ []; can_use_start = pos 0; can_use_num = pos 2 }

two_items_made : init new_item (pos 2) ≡ some two_items
unfolding init
two_items_made = refl

abbrev pool_ops : List (PoolOp ℕ)
pool_ops = give_back 5 ∷ ask ∷ ask ∷ ask ∷ give_back 10 ∷ ask ∷ []

pool_run-spec_run_example :
    pool_run pool_ops two_items ≡ some (spec_run 2 pool_ops (made new_item 0 2))
pool_run-spec_run_example =
    pool_run-spec_run new_item 2 two_items pool_ops (omega arith) (omega arith) two_items_made

pool_answers :
    spec_run 2 pool_ops (10 ∷ 11 ∷ [])
    ≡ took false
      ∷ handed (some 10)
      ∷ handed (some 11)
      ∷ handed none
      ∷ took true
      ∷ handed (some 10)
      ∷ []
unfolding spec_run spec_get spec_recycle
pool_answers = refl

abbrev one_out : SimpleItemPool ℕ
one_out = record two_items { can_use_start = pos 1 }

abbrev back : SimpleItemPool ℕ
back = record two_items { can_use_start = pos 0 }

first_out : get_free two_items ≡ some (one_out, some 10)
unfolding get_free ◌+₃₂◌ ◌+ℤ◌ wrap32
first_out = refl

first_back : recycle 10 one_out ≡ some (back, true)
unfolding recycle put_at ◌-₃₂◌ ◌-ℤ◌ wrap32
first_back = refl

back_traded : Traded new_item 2 back []
back_traded = returns [] [] 10 (hands 10 (fresh two_items_made) first_out) first_back

traded-Perm_example : Perm (free_items one_out ++ 10 ∷ []) (made new_item 0 2)
traded-Perm_example =
    traded-Perm new_item 2 one_out (10 ∷ []) (omega arith) (omega arith)
      (hands 10 (fresh two_items_made) first_out)

still_free :
    (has_free one_out ≡ true) × (has_free (record one_out { can_use_start = negsuc 0 }) ≡ false)
unfolding has_free
still_free = (refl, refl)
