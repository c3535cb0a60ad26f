-- ===== src/Tests/Growth.antt =====
-- The tower, talents and artifacts at concrete inputs.
use ih_server.Base.{
  ℤ, pos, ◌+ℤ◌, ◌+₃₂◌, wrap32, ◌<ℤ◌, [], ◌∷◌, some, true, lookup, if◌then◌else◌, ◌≡◌, ◌≢◌, ◌⊎◌,
  refl, arith,
}
use ih_server.Player.Env.{TalentData}
use ih_server.Player.State.{Player, Ret, success, pairs}
use ih_server.Player.Resource.Price.{IsPrice}
use ih_server.Player.Tower.{
  grow_keys, key_state, Fight, Saves, check_tower_keys, choose_tower, stage, fight_with_key,
  fight_tower,
}
use ih_server.Player.Tower.Keys.{looks_lose_no_time, keys_fill}
use ih_server.Player.Tower.Fight.{IsNext, fight_tower-IsNext}
use ih_server.Player.Talent.{up_talent, talent_reset, level_of}
use ih_server.Player.Talent.Learn.{Learnt, Unmet, up_talent-Learnt}
use ih_server.Player.Talent.Reset.{left, talent_reset-left}
use ih_server.Player.Artifact.Growth.{
  level_up, rank_up, reset, artifact_run, AllGrown, TableFits, artifact_run-AllGrown,
}
use ih_server.Tests.World.{world, hero, talent}
use ih_server.Tests.Wallet.{hero-Solvent}

looks_lose_no_time_example :
    let k = grow_keys (pos 1250) (pos 9) 99 (pos 1) (pos 1000) in
    grow_keys (pos 1399) (pos 9) 99 k.keys k.last_time
    ≡ grow_keys (pos 1399) (pos 9) 99 (pos 1) (pos 1000)
looks_lose_no_time_example =
    looks_lose_no_time 1250 1399 9 99 1 1000 (omega arith) (omega arith) (omega arith) (omega arith)
      (omega arith) (omega arith)

keys_fill_example :
    let k = grow_keys (pos 2250) (pos 9) 99 (pos 1) (pos 1000) in
    (k.keys ≡ pos 9) × (k.remain ≡ pos 0)
keys_fill_example =
    keys_fill 2250 9 99 1 1000 (omega arith) (omega arith) (omega arith) (omega arith) (omega arith)
      (omega arith)

abbrev wins : Fight
wins s = (pos 0, true)

abbrev fought : Player × Saves × Ret
fought =
    fight_with_key world wins (pos 9) (pos 2) (pos 12) (some (pos 1 ∷ pos 7 ∷ []))
      (check_tower_keys world hero).2.keys [] (check_tower_keys world hero).0

fight_runs : fight_tower world wins (pos 9) (pos 2) [] hero ≡ some fought
unfolding fight_tower choose_tower
fight_runs = refl

fight_tower-IsNext_example :
    ((fought.2 ≡ success)
      × IsNext world (pos 1) (pos 2)
      × (pos 0 <ℤ (key_state world hero).keys)
      × (s : ℤ) × (choose_tower world (pos 1) (pos 2) ≡ stage s)
      × (fought.0.tower.curr_id ≡ (if (wins s).1 then pos 2 else pos 1)))
    ⊎ ((fought.2 ≢ success) × (fought.0.tower.curr_id ≡ pos 1) × (fought.1 ≡ []))
fight_tower-IsNext_example =
    fight_tower-IsNext world wins (pos 9) (pos 2) [] fought.1 hero fought.0 fought.2 fight_runs

talent-IsPrice :
    (t : TalentData)
    → world.talent_table (pos 4) (level_of hero (pos 4) +₃₂ pos 1) ≡ some t
    → IsPrice (pairs t.upgrade_cost)
unfolding lookup ◌+₃₂◌ ◌+ℤ◌ wrap32
talent-IsPrice t h =
    let same : talent ≡ t = ground (arith, h) in rw (← same) ((refl, refl), omega arith, refl, tt)

up_talent-Learnt_example :
    let (q, r) = up_talent world (pos 4) hero in
    ((r ≡ success) × (t : TalentData) × Learnt world (pos 4) hero q t)
    ⊎ ((r ≢ success) × (q ≡ hero) × Unmet world (pos 4) hero)
unfolding lookup
up_talent-Learnt_example =
    up_talent-Learnt world (pos 4) hero hero-Solvent (ground arith) talent-IsPrice

abbrev learned : Player
learned = record hero { talents = (pos 4, pos 1) ∷ (pos 5, pos 1) ∷ [] }

talent_reset-left_example :
    let (q, r) = talent_reset world (pos 1) learned in
    ((r ≡ success) × ((j : ℤ) → lookup j q.talents ≡ left world (pos 1) learned j))
    ⊎ ((r ≢ success) × (q ≡ learned))
talent_reset-left_example = talent_reset-left world (pos 1) learned

world-TableFits : TableFits world
world-TableFits = record { levels = λ id r l d h. ground arith; ranks = λ id. omega arith }

hero-AllGrown : AllGrown world hero
unfolding lookup
hero-AllGrown j a h = record {
  rank_pos = ground (arith, h);
  level_pos = ground (arith, h);
  rank_max = ground (arith, h);
}

artifact_run-AllGrown_example : AllGrown world (
    artifact_run world
      (level_up (pos 6) ∷ rank_up (pos 6) ∷ level_up (pos 6) ∷ reset (pos 6) ∷ [])
      hero)
artifact_run-AllGrown_example = artifact_run-AllGrown world _ hero world-TableFits hero-AllGrown
