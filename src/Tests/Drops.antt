-- ===== src/Tests/Drops.antt =====
-- Drops at concrete inputs.
use ih_server.Base.{
  ℤ, pos, ◌+₃₂◌, ◌-₃₂◌, ◌+ℤ◌, ◌-ℤ◌, wrap32, List, [], ◌∷◌, none, some, true, false, lookup, insert,
  ◌≡◌, refl,
}
use ih_server.Player.Drop.{
  DropItem, DropEnv, load, count_row, count_rows, append_row, append_rows, drop_item,
  drop_item_by_id, drop_loop, give_drop, rand31n_from_range,
}
use ih_server.Tests.World.{world, hero}

-- Two rows of a group and one of another.
abbrev row : ℤ → ℤ → ℤ → DropItem
row group id weight = record {
  group_id = group;
  drop_item_id = id;
  weight = weight;
  min = pos 1;
  max = pos 3;
}

abbrev rows : List DropItem
rows =
    row (pos 5) (pos 100) (pos 30)
    ∷ row (pos 6) (pos 50) (pos 1)
    ∷ row (pos 5) (pos 50) (pos 70)
    ∷ []

-- The greatest number that rand.Int31n can give.
abbrev last : ℤ → ℤ
last n = n -ℤ pos 1

abbrev luck : DropEnv
luck = record { int31n = λ k. last; has_cards = λ id. false; new_role = λ id p. p }

-- A row whose id is used is passed over, and the next one is taken.
passes :
    drop_item_by_id world
      (record luck { int31n = λ k n. pos 0 })
      (load rows)
      (pos 5)
      false
      (some (pos 100 ∷ []))
      none
      hero
    ≡ some (hero, none, true, some (pos 50, pos 1))
unfolding drop_item_by_id drop_item drop_loop give_drop rand31n_from_range load count_rows count_row
    append_rows append_row lookup insert ◌+₃₂◌ ◌-₃₂◌ ◌+ℤ◌ ◌-ℤ◌ wrap32
passes = refl
