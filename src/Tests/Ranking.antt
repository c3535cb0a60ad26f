-- ===== src/Tests/Ranking.antt =====
-- Rankings at concrete inputs.
use ih_server.Base.{
  ℕ, ◌<◌, ℤ, pos, negsuc, ◌+₃₂◌, ◌+ℤ◌, wrap32, List, [], ◌∷◌, none, some, true, false, lookup,
  insert, delete, ◌≡◌, ◌⊎◌, refl, arith,
}
use ih_server.RankList.{
  ShortRankItem, ShortRankList, test_short_rank_item, init, move, shift_up, shift_down, scan_left,
  scan_right, place, append, replace, update, remove, get_rank, get_by_rank, get_index,
}
use ih_server.RankList.Consistent.{Consistent}
use ih_server.RankList.Update.{get_rank-get_by_rank}
use ih_server.RankList.Order.{IsOrder}
use ih_server.RankList.Run.{
  RankOp, put, take_out, rank_run, Ranked, init_run-Ranked, Holds, update-Holds,
}

abbrev o : ShortRankItem (ℤ × ℤ)
o = test_short_rank_item

abbrev fresh : ShortRankList (ℤ × ℤ)
fresh = record { items = none ∷ none ∷ none ∷ []; max_num = 3; curr_num = 0; keys_map = [] }

fresh_made : init 3 ≡ some fresh
unfolding init
fresh_made = refl

test-IsOrder : IsOrder o
test-IsOrder = record {
  asym = λ a b h. ground arith;
  trans = λ a b c h k. ground arith;
  converse = λ a b. ground arith;
}

add_key : (a b : ℤ × ℤ) → o.get_key (o.add a b) ≡ o.get_key a
unfolding ◌+₃₂◌
add_key a b = ground arith

abbrev rank_ops : List (RankOp (ℤ × ℤ))
rank_ops =
    put (pos 1, pos 10) false
    ∷ put (pos 2, pos 30) false
    ∷ put (pos 3, pos 20) false
    ∷ put (pos 1, pos 15) true
    ∷ take_out (pos 2)
    ∷ []

abbrev ranked : ShortRankList (ℤ × ℤ)
ranked = rank_run o rank_ops fresh

init_run-Ranked_example : Ranked o ranked
init_run-Ranked_example = init_run-Ranked o test-IsOrder add_key 3 rank_ops fresh fresh_made

ranked-Consistent : Consistent o ranked
ranked-Consistent = (init_run-Ranked o test-IsOrder add_key 3 rank_ops fresh fresh_made).0

ranks :
    (get_by_rank 1 ranked ≡ some (pos 1, pos 25))
    × (get_by_rank 2 ranked ≡ some (pos 3, pos 20))
    × (get_rank (pos 3) ranked ≡ 2)
    × (get_index o 3 ranked ≡ negsuc 0)
unfolding rank_run get_by_rank get_rank get_index update remove append replace place scan_left
    scan_right shift_up shift_down move lookup insert delete ◌+₃₂◌ ◌+ℤ◌ wrap32
ranks = (refl, refl, refl, refl)

update-Holds_example :
    let (q, done) = update o (pos 3, pos 40) false ranked in
    ((done ≡ true) × Holds o (pos 3, pos 40) q) ⊎ ((done ≡ false) × (q ≡ ranked))
update-Holds_example = update-Holds o (pos 3, pos 40) ranked ranked-Consistent

get_rank-get_by_rank_example :
    ((r : ℕ) (x : ℤ × ℤ)
      → 0 < r
      → get_by_rank r ranked ≡ some x
      → get_rank (o.get_key x) ranked ≡ r)
    × ((k : ℤ)
        → 0 < get_rank k ranked
        → (x : ℤ × ℤ) × (get_by_rank (get_rank k ranked) ranked ≡ some x) × (o.get_key x ≡ k))
get_rank-get_by_rank_example = get_rank-get_by_rank o ranked ranked-Consistent
