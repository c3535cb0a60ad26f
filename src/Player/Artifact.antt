-- ===== src/Player/Artifact.antt =====
-- src/hall_server/player_artifact.go: artifacts are unlocked, raised by level and rank, and reset.
pub mod Growth
use ih_server.Base.{
  ℤ, pos, ◌+₃₂◌, ◌<?◌, ◌≤?◌, ◌=?◌, List, [], ◌∷◌, Option, none, some, Bool, true, false, ◌&&◌, not,
  if◌then◌else◌, lookup, insert, delete, has_index, Dict, is_some,
}
use ih_server.Player.Env.{Env, Slice, ArtifactData, ArtifactUnlock}
use ih_server.Player.State.{
  Player, Artifact, Ret, success, item_num_not_enough, artifact_already_unlocked,
  artifact_table_unlock_data_not_found, artifact_cant_unlock_with_condition,
  artifact_table_data_not_found, artifact_has_not_unlock, artifact_level_is_max,
  artifact_must_rankup_to_levelup, artifact_rank_is_max, artifact_no_need_to_reset, artifact_update,
  artifact_unlock as unlock_response, artifact_reset as reset_response,
  artifact_levelup as levelup_response, artifact_rankup as rankup_response, artifact_list, send,
}
use ih_server.Player.Resource.ById.{add_resources, check_resources, cost_resources}

-- `if cost != nil { check_resources }`
abbrev can_pay : Slice → Player → Bool
can_pay none p = true
can_pay (some l) p = check_resources (some l) p

-- `if cost != nil { cost_resources }`
abbrev pub pay : Env → Slice → Player → Player
pay e none p = p
pay e (some l) p = (cost_resources e (some l) p).0

abbrev pub put : ℤ → ℤ → ℤ → Player → Player
put id rank level p = record p {
  artifacts = insert id (record { rank = rank; level = level }) p.artifacts;
}

-- artifact_data drops the artifacts that the table does not know, and sends the others.
unfoldable pub known_artifacts : Env → Dict Artifact → Dict Artifact
known_artifacts e [] = []
known_artifacts e ((id, a) ∷ m) =
    let rest = known_artifacts e m in
    elim (e.artifact_table id a.rank a.level) [ none ↦ rest | some d ↦ (id, a) ∷ rest ]

unfoldable pub artifact_data : Env → Player → Player × Ret
artifact_data e p =
    let m = known_artifacts e p.artifacts in
    (send (artifact_list m) (record p { artifacts = m }), success)

-- artifact_unlock
pub artifact_unlock : Env → ℤ → Player → Player × Ret
artifact_unlock e id p =
    if has_index id p.artifacts
    then (p, artifact_already_unlocked)
    else elim (e.artifact_unlock_table id) [
      | none ↦ (p, artifact_table_unlock_data_not_found)
      | some u ↦
          if p.row_level <? u.unlock_level
          then (p, artifact_cant_unlock_with_condition)
          else if p.vip_lvl <? u.unlock_vip_level
          then (p, artifact_cant_unlock_with_condition)
          else if not (can_pay u.unlock_res_cost p)
          then (p, item_num_not_enough)
          else if not (is_some (e.artifact_table id (pos 1) (pos 1)))
          then (p, artifact_table_data_not_found)
          else (
            send (artifact_update id (pos 1) (pos 1))
                (send (unlock_response id) (pay e u.unlock_res_cost (put id (pos 1) (pos 1) p))),
            success,
          )
    ]

-- artifact_levelup
pub artifact_levelup : Env → ℤ → Player → Player × Ret
artifact_levelup e id p = elim (lookup id p.artifacts) [
  | none ↦ (p, artifact_has_not_unlock)
  | some a ↦ elim (e.artifact_table id a.rank a.level) [
    | none ↦ (p, artifact_table_data_not_found)
    | some d ↦
        if d.max_level ≤? a.level
        then (
          p,
          (if e.artifact_max_rank id ≤? a.rank
              then artifact_level_is_max
              else artifact_must_rankup_to_levelup),
        )
        else if not (can_pay d.level_up_res_cost p)
        then (p, item_num_not_enough)
        else let q = pay e d.level_up_res_cost (put id a.rank (a.level +₃₂ pos 1) p) in
          (
            send (artifact_update id a.rank (a.level +₃₂ pos 1))
                (send (levelup_response id (a.level +₃₂ pos 1)) q),
            success,
          )
  ]
]

-- artifact_rankup
pub artifact_rankup : Env → ℤ → Player → Player × Ret
artifact_rankup e id p = elim (lookup id p.artifacts) [
  | none ↦ (p, artifact_has_not_unlock)
  | some a ↦
      if e.artifact_max_rank id ≤? a.rank
      then (p, artifact_rank_is_max)
      else elim (e.artifact_table id a.rank a.level) [
        | none ↦ (p, artifact_table_data_not_found)
        | some d ↦
            if not (can_pay d.rank_up_res_cost p)
            then (p, item_num_not_enough)
            else let q = pay e d.rank_up_res_cost (put id (a.rank +₃₂ pos 1) a.level p) in
              (
                send (artifact_update id (a.rank +₃₂ pos 1) a.level)
                    (send (rankup_response id (a.rank +₃₂ pos 1)) q),
                success,
              )
      ]
]

-- artifact_reset
pub artifact_reset : Env → ℤ → Player → Player × Ret
artifact_reset e id p = elim (lookup id p.artifacts) [
  | none ↦ (p, artifact_has_not_unlock)
  | some a ↦
      if a.rank ≤? pos 1 && a.level ≤? pos 1
      then (p, artifact_no_need_to_reset)
      else elim (e.artifact_table id a.rank a.level) [
        | none ↦ (p, artifact_table_data_not_found)
        | some d ↦
            let q = add_resources e d.decompose_res (put id (pos 1) (pos 1) p) in
            (send (artifact_update id (pos 1) (pos 1)) (send (reset_response id) q), success)
      ]
]
