-- ===== src/Player/Talent/Learn.antt =====
-- src/hall_server/player_talent.go: a talent is learnt by one level, for the price of that level.
use ih_server.Base.{
  ℤ, pos, ◌+₃₂◌, ◌-ℤ◌, ◌<ℤ◌, ◌≤ℤ◌, false, ◌≤?◌, =?-iff, =?-refl, some, Option-cases, Bool-cases,
  inl, inr, true, ◌||◌, not, lookup, lookup-insert, ◌≡◌, ◌≢◌, ◌⊎◌, refl, ◌∙◌, ap, arith,
}
use ih_server.Player.Env.{Env, TalentData}
use ih_server.Player.State.{Player, success, talent_up, send, pairs}
use ih_server.Player.Resource.ById.{get_resource, check_pairs, cost_pairs}
use ih_server.Player.Resource.Frame.{cost_pairs-OnlyWallet}
use ih_server.Player.Resource.Price.{Solvent, IsPrice, amount, cost_pairs_lem, check_pairs_iff}
use ih_server.Player.Talent.{level_of, has_prev, store_level, up_talent}

-- A talent that is learnt: its row, the level above, and the price that is paid.
pub record Learnt (e : Env) (id : ℤ) (p q : Player) (t : TalentData) : Type 0 where
  pub listed : e.talent_table id (level_of p id +₃₂ pos 1) ≡ some t
  pub learnable : pos 0 <ℤ t.can_learn
  pub prev :
      pos 0 <ℤ t.prev_skill_cond
      → (l : ℤ) × (lookup t.prev_skill_cond p.talents ≡ some l) × (t.pre_skill_lev_cond ≤ℤ l)
  pub affordable : (j : ℤ) → amount (pairs t.upgrade_cost) j ≤ℤ get_resource p j
  pub level : lookup id q.talents ≡ some (level_of p id +₃₂ pos 1)
  pub others : (j : ℤ) → j ≢ id → lookup j q.talents ≡ lookup j p.talents
  pub paid : (j : ℤ) → get_resource q j ≡ get_resource p j -ℤ amount (pairs t.upgrade_cost) j

-- What keeps a player from learning the next level of a talent, where it has a row: that it cannot be
-- learnt, that the talent that it needs is missing or too low, or that a resource falls short.
abbrev pub Unmet : Env → ℤ → Player → Type 0
Unmet e id p =
    (t : TalentData)
    → e.talent_table id (level_of p id +₃₂ pos 1) ≡ some t
    → (t.can_learn ≤ℤ pos 0)
      ⊎ ((pos 0 <ℤ t.prev_skill_cond)
          × ((l : ℤ) → lookup t.prev_skill_cond p.talents ≡ some l → l <ℤ t.pre_skill_lev_cond))
      ⊎ ((j : ℤ) × (get_resource p j <ℤ amount (pairs t.upgrade_cost) j))

has_prev-met :
    (t : TalentData) (p : Player)
    → has_prev t p ≡ true
    → pos 0 <ℤ t.prev_skill_cond
    → (l : ℤ) × (lookup t.prev_skill_cond p.talents ≡ some l) × (t.pre_skill_lev_cond ≤ℤ l)
unfolding has_prev
has_prev-met t p met needed = elim (Option-cases (lookup t.prev_skill_cond p.talents)) [
  | inl missing ↦ absurd (ground (arith, missing, met, needed))
  | inr (l, there) ↦ (l, there, ground (arith, there, met, needed))
]

has_prev-unmet :
    (t : TalentData) (p : Player)
    → has_prev t p ≡ false
    → (pos 0 <ℤ t.prev_skill_cond)
      × ((l : ℤ) → lookup t.prev_skill_cond p.talents ≡ some l → l <ℤ t.pre_skill_lev_cond)
unfolding has_prev
has_prev-unmet t p unmet = (ground (arith, unmet), λ l there. ground (arith, there, unmet))

store-level :
    (id : ℤ) (p q : Player)
    → q.talents ≡ p.talents
    → lookup id p.talents ≢ some (pos 0)
    → (lookup id (store_level id (level_of p id) q).talents ≡ some (level_of p id +₃₂ pos 1))
      × ((j : ℤ)
          → j ≢ id
          → lookup j (store_level id (level_of p id) q).talents ≡ lookup j p.talents)
      × ((j : ℤ) → get_resource (store_level id (level_of p id) q) j ≡ get_resource q j)
unfolding store_level get_resource
store-level id p q same n =
    let l = level_of p id in
    (
      ground
          (arith, lookup-insert id id (l +₃₂ pos 1) q.talents, =?-refl id, =?-iff l (pos 0), same),
      (λ j h. ground (arith, lookup-insert id j (l +₃₂ pos 1) q.talents, =?-iff id j, same)),
      λ j. ground arith,
    )

unmet :
    (t : TalentData) (p : Player)
    → Solvent p
    → IsPrice (pairs t.upgrade_cost)
    → (t.can_learn ≤? pos 0 || not (has_prev t p) || not (check_pairs (pairs t.upgrade_cost) p))
      ≡ true
    → (t.can_learn ≤ℤ pos 0)
      ⊎ ((pos 0 <ℤ t.prev_skill_cond)
          × ((l : ℤ) → lookup t.prev_skill_cond p.talents ≡ some l → l <ℤ t.pre_skill_lev_cond))
      ⊎ ((j : ℤ) × (get_resource p j <ℤ amount (pairs t.upgrade_cost) j))
unmet t p s x bad = elim (Bool-cases (t.can_learn ≤? pos 0)) [
  | inl never ↦ inl (ground (arith, never))
  | inr can ↦ elim (Bool-cases (has_prev t p)) [
    | inr missing ↦ inr (inl (has_prev-unmet t p missing))
    | inl there ↦ elim (check_pairs_iff (pairs t.upgrade_cost) p s x) [
      | inl (enough, each) ↦ absurd (ground (arith, bad, can, there, enough))
      | inr (short, lack) ↦ inr (inr lack)
    ]
  ]
]

sent-same :
    (e : Env) (i l : ℤ) (p : Player)
    → ((send (talent_up i l) p).talents ≡ p.talents)
      × ((j : ℤ) → get_resource (send (talent_up i l) p) j ≡ get_resource p j)
unfolding send get_resource
sent-same e i l p = (refl, λ j. refl)

-- up_talent teaches a talent by one level for exactly the price of that level, when that level has a
-- row that can be learnt, the talent that it needs is there and high enough, and no resource falls short
-- of the price; where one of these fails, it refuses and changes nothing. The player's
-- resources are int32s that are not negative, the price names spendable resources, each once, in
-- positive amounts, and the stored level of the talent is not zero.
pub up_talent-Learnt :
    (e : Env) (id : ℤ) (p : Player)
    → Solvent p
    → lookup id p.talents ≢ some (pos 0)
    → ((t : TalentData)
        → e.talent_table id (level_of p id +₃₂ pos 1) ≡ some t
        → IsPrice (pairs t.upgrade_cost))
    → let (q, r) = up_talent e id p in
      ((r ≡ success) × (t : TalentData) × Learnt e id p q t)
      ⊎ ((r ≢ success) × (q ≡ p) × Unmet e id p)
unfolding up_talent
up_talent-Learnt e id p s n x = elim (Option-cases (e.talent_table id (level_of p id +₃₂ pos 1))) [
  | inl none_at ↦ inr (
    rw (none_at, up_talent) (λ k. ground arith),
    rw (none_at, up_talent) refl,
    λ t at. absurd (ground (arith, at, none_at)),
  )
  | inr (t, at) ↦
      elim (Bool-cases (
        t.can_learn ≤? pos 0 || not (has_prev t p) || not (check_pairs (pairs t.upgrade_cost) p))) [
          | inl bad ↦ inr (
            ground arith,
            ground arith,
            λ u at_u.
                let same : t ≡ u = ground (arith, at, at_u) in
                rw (← same) (unmet t p s (x t at) bad),
          )
          | inr good ↦
              let cost = pairs t.upgrade_cost in
              let c = cost_pairs e cost p in
              let enough : check_pairs cost p ≡ true = ground arith in
              let can : pos 0 <ℤ t.can_learn = ground arith in
              let prev : has_prev t p ≡ true = ground arith in
              let q = store_level id (level_of p id) c in
              let same : c.talents ≡ p.talents = ground (arith, cost_pairs-OnlyWallet e cost p) in
              let l = store-level id p c same n in
              let m = sent-same e id (level_of p id +₃₂ pos 1) q in
              let is_q : up_talent e id p
                  ≡ (send (talent_up id (level_of p id +₃₂ pos 1)) q, success) =
                ground arith in
              inl (
                ap (λ y. y.1) is_q,
                t,
                rw is_q (record {
                  listed = at;
                  learnable = can;
                  prev = has_prev-met t p prev;
                  affordable = elim (check_pairs_iff cost p s (x t at)) [
                    | inl (all, each) ↦ each
                    | inr (short, lack) ↦ absurd (ground (arith, short, enough))
                  ];
                  level = ap (lookup id) m.0 ∙ l.0;
                  others = λ j h. ap (lookup j) m.0 ∙ l.1 j h;
                  paid = λ j. m.1 j ∙ l.2 j ∙ (cost_pairs_lem e cost p s (x t at) enough).1 j;
                }),
              )
        ]
]
