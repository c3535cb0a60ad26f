-- ===== src/Player/Artifact/Growth.antt =====
-- src/hall_server/player_artifact.go: an artifact grows by one level or rank at a time, within the
-- bounds of its table.
use ih_server.Base.{
  ℤ, pos, ◌+₃₂◌, ◌+ℤ◌, +ℤ_parts, parts_disjoint, wrap32-eq, IsInt32, ◌<ℤ◌, ◌≤ℤ◌, =?-iff, ◌=?◌, List,
  [], ◌∷◌, none, some, Option-cases, Bool-cases, inl, inr, if◌then◌else◌, lookup, insert,
  lookup-insert, ◌≡◌, ◌≢◌, ◌⊎◌, refl, arith,
}
use ih_server.Player.Env.{Env, Slice, ArtifactData}
use ih_server.Player.State.{Player, Artifact, Ret, success, send, pairs}
use ih_server.Player.Resource.ById.{cost_resources}
use ih_server.Player.Resource.Frame.{add_resources-OnlyWallet, cost_pairs-OnlyWallet}
use ih_server.Player.Artifact.{
  put, pay, artifact_unlock, artifact_levelup, artifact_rankup, artifact_reset,
}

pay-artifacts : (e : Env) (s : Slice) (p : Player) → (pay e s p).artifacts ≡ p.artifacts
unfolding cost_resources
pay-artifacts e none p = refl
pay-artifacts e (some l) p = ground (arith, cost_pairs-OnlyWallet e (pairs l) p)

-- An artifact within its bounds: from 1, up to its last rank.
pub record IsGrown (e : Env) (id : ℤ) (a : Artifact) : Type 0 where
  pub rank_pos : pos 0 <ℤ a.rank
  pub level_pos : pos 0 <ℤ a.level
  pub rank_max : (a.rank ≡ pos 1) ⊎ (a.rank ≤ℤ e.artifact_max_rank id)

-- What a handler does: it stores a state of the artifact in question and succeeds, or refuses and
-- changes nothing.
abbrev Stores : ℤ → Artifact → Player → Player × Ret → Type 0
Stores id a p (q, r) =
    ((r ≡ success) × (q.artifacts ≡ insert id a p.artifacts)) ⊎ ((r ≢ success) × (q ≡ p))

module _ (e : Env) (id : ℤ) (p : Player) where
  unlock-Stores : Stores id (record { rank = pos 1; level = pos 1 }) p (artifact_unlock e id p)
  unfolding artifact_unlock send
  unlock-Stores = elim (Option-cases (e.artifact_unlock_table id)) [
    | inl n ↦ inr (ground arith, ground arith)
    | inr (u, n) ↦ ground (arith, pay-artifacts e u.unlock_res_cost (put id (pos 1) (pos 1) p))
  ]

  -- artifact_levelup raises the level of an unlocked artifact by one, from below the maximum.
  levelup-Stores :
      (a : Artifact)
      → lookup id p.artifacts ≡ some a
      → Stores id (record { rank = a.rank; level = a.level +₃₂ pos 1 }) p (artifact_levelup e id p)
  unfolding artifact_levelup send
  levelup-Stores a h = elim (Option-cases (e.artifact_table id a.rank a.level)) [
    | inl n ↦ inr (ground arith, ground arith)
    | inr (d, n) ↦
        ground (arith, pay-artifacts e d.level_up_res_cost (put id a.rank (a.level +₃₂ pos 1) p))
  ]

  rankup-Stores :
      (a : Artifact)
      → lookup id p.artifacts ≡ some a
      → Stores id (record { rank = a.rank +₃₂ pos 1; level = a.level }) p (artifact_rankup e id p)
        × ((artifact_rankup e id p).1 ≡ success → a.rank <ℤ e.artifact_max_rank id)
  unfolding artifact_rankup send
  rankup-Stores a h = elim (Option-cases (e.artifact_table id a.rank a.level)) [
    | inl n ↦ (inr (ground arith, ground arith), λ k. ground arith)
    | inr (d, n) ↦ (
      ground (arith, pay-artifacts e d.rank_up_res_cost (put id (a.rank +₃₂ pos 1) a.level p)),
      λ k. ground arith,
    )
  ]

  -- An artifact that has risen was below the maximum of its level.
  levelup-below :
      (a : Artifact)
      → lookup id p.artifacts ≡ some a
      → (artifact_levelup e id p).1 ≡ success
      → (d : ArtifactData) × (e.artifact_table id a.rank a.level ≡ some d)
        × (a.level <ℤ d.max_level)
  unfolding artifact_levelup
  levelup-below a h k = elim (Option-cases (e.artifact_table id a.rank a.level)) [
    | inl n ↦ absurd (ground arith)
    | inr (d, n) ↦ (d, n, ground arith)
  ]

  reset-Stores : Stores id (record { rank = pos 1; level = pos 1 }) p (artifact_reset e id p)
  unfolding artifact_reset send
  reset-Stores = elim (Option-cases (lookup id p.artifacts)) [
    | inl n ↦ inr (ground arith, ground arith)
    | inr (a, h) ↦ elim (Option-cases (e.artifact_table id a.rank a.level)) [
      | inl n ↦ inr (ground arith, ground arith)
      | inr (d, n) ↦
          ground (arith, add_resources-OnlyWallet e d.decompose_res (put id (pos 1) (pos 1) p))
    ]
  ]

-- What a client asks for.
pub data ArtifactCall : Type 0 where
  unlock level_up rank_up reset : ℤ → ArtifactCall

abbrev artifact_step : Env → ArtifactCall → Player → Player × Ret
artifact_step e (unlock id) p = artifact_unlock e id p
artifact_step e (level_up id) p = artifact_levelup e id p
artifact_step e (rank_up id) p = artifact_rankup e id p
artifact_step e (reset id) p = artifact_reset e id p

pub artifact_run : Env → List ArtifactCall → Player → Player
artifact_run e [] p = p
artifact_run e (c ∷ cs) p = artifact_run e cs (artifact_step e c p).0

-- Every artifact of a player is within its bounds.
abbrev pub AllGrown : Env → Player → Type 0
AllGrown e p = (j : ℤ) (a : Artifact) → lookup j p.artifacts ≡ some a → IsGrown e j a

stored-AllGrown :
    (e : Env) (id : ℤ) (a : Artifact) (p : Player) (r : Player × Ret)
    → Stores id a p r
    → (r.1 ≡ success → IsGrown e id a)
    → AllGrown e p
    → AllGrown e r.0
stored-AllGrown e id a p (q, r) (inr (no_success, same)) g v = rw same v
stored-AllGrown e id a p (q, r) (inl (done, same)) g v = λ j b at.
    let found : lookup j q.artifacts ≡ (if id =? j then some a else lookup j p.artifacts) =
      rw same (lookup-insert id j a p.artifacts) in
    elim (Bool-cases (id =? j)) [
      | inl here ↦
          let stored : a ≡ b = ground (arith, found, at) in
          rw (← (=?-iff id j).0 here, ← stored) (g done)
      | inr there ↦ v j b (ground (arith, found, at))
    ]

-- The table's bounds are int32s.
pub record TableFits (e : Env) : Type 0 where
  pub levels :
      (id r l : ℤ) (d : ArtifactData) → e.artifact_table id r l ≡ some d → IsInt32 d.max_level
  pub ranks : (id : ℤ) → IsInt32 (e.artifact_max_rank id)

next_pos : (x m : ℤ) → pos 0 <ℤ x → x <ℤ m → IsInt32 m → (pos 0 <ℤ x +₃₂ pos 1) × (x +₃₂ pos 1 ≤ℤ m)
unfolding ◌+₃₂◌
next_pos x m h k i =
    let exact =
      wrap32-eq (x +ℤ pos 1)
        (omega (arith, +ℤ_parts x (pos 1), parts_disjoint (x +ℤ pos 1), parts_disjoint m)) in
    rw exact (omega (arith, +ℤ_parts x (pos 1)), omega (arith, +ℤ_parts x (pos 1)))

first-IsGrown : (e : Env) (id : ℤ) → IsGrown e id (record { rank = pos 1; level = pos 1 })
first-IsGrown e id = record { rank_pos = omega arith; level_pos = omega arith; rank_max = inl refl }

levelup-AllGrown :
    (e : Env) (id : ℤ) (p : Player)
    → TableFits e
    → AllGrown e p
    → AllGrown e (artifact_levelup e id p).0
unfolding artifact_levelup
levelup-AllGrown e id p t v = elim (Option-cases (lookup id p.artifacts)) [
  | inl n ↦ rw (n, artifact_levelup) v
  | inr (a, h) ↦
      stored-AllGrown e id _ p (artifact_levelup e id p) (levelup-Stores e id p a h)
        (λ k.
          let (d, at, below) = levelup-below e id p a h k in
          record {
            rank_pos = (v id a h).rank_pos;
            level_pos =
                (next_pos a.level d.max_level (v id a h).level_pos below (t.levels _ _ _ _ at)).0;
            rank_max = (v id a h).rank_max;
          })
        v
]

rankup-AllGrown :
    (e : Env) (id : ℤ) (p : Player)
    → TableFits e
    → AllGrown e p
    → AllGrown e (artifact_rankup e id p).0
unfolding artifact_rankup
rankup-AllGrown e id p t v = elim (Option-cases (lookup id p.artifacts)) [
  | inl n ↦ rw (n, artifact_rankup) v
  | inr (a, h) ↦
      let (s, below) = rankup-Stores e id p a h in
      stored-AllGrown e id _ p (artifact_rankup e id p) s
        (λ k.
          let x =
            next_pos a.rank (e.artifact_max_rank id) (v id a h).rank_pos (below k) (t.ranks id) in
          record { rank_pos = x.0; level_pos = (v id a h).level_pos; rank_max = inr (x.1) })
        v
]

step-AllGrown :
    (e : Env) (c : ArtifactCall) (p : Player)
    → TableFits e
    → AllGrown e p
    → AllGrown e (artifact_step e c p).0
step-AllGrown e (unlock id) p t v =
    stored-AllGrown e id _ p _ (unlock-Stores e id p) (λ k. first-IsGrown e id) v
step-AllGrown e (level_up id) p t v = levelup-AllGrown e id p t v
step-AllGrown e (rank_up id) p t v = rankup-AllGrown e id p t v
step-AllGrown e (reset id) p t v =
    stored-AllGrown e id _ p _ (reset-Stores e id p) (λ k. first-IsGrown e id) v

-- Whatever a client asks for, every artifact keeps a positive rank and level, and a rank that is 1 or
-- not above the last of its table, where the bounds of the table are int32s.
pub artifact_run-AllGrown :
    (e : Env) (cs : List ArtifactCall) (p : Player)
    → TableFits e
    → AllGrown e p
    → AllGrown e (artifact_run e cs p)
unfolding artifact_run
artifact_run-AllGrown e [] p t v = v
artifact_run-AllGrown e (c ∷ cs) p t v = artifact_run-AllGrown e cs _ t (step-AllGrown e c p t v)
