-- ===== src/Player/Tower/Fight.antt =====
-- src/hall_server/player_tower.go: which tower is fought, and where a fight leaves the player.
use ih_server.Base.{
  ℤ, pos, negsuc, ◌<?◌, ◌≤?◌, ◌=?◌, if◌then◌else◌, ◌||◌, true, [], ◌∷◌, none, some, Bool, ◌<ℤ◌,
  =?-iff, ◌⊎◌, ◌≢◌, Bool-cases, Option-cases, inl, inr, ◌≡◌, refl, arith,
}
use ih_server.Player.Env.{Env, Slice, TowerData}
use ih_server.Player.State.{Player, Ret, success, send, pairs, tower_rank, tower_battle_result}
use ih_server.Player.Resource.Frame.{
  set_resource-OnlyWallet, add_resource-OnlyWallet, add_pairs-OnlyWallet,
}
use ih_server.Player.Tower.{
  Saves, Fight, Choice, stage, refused, panic, choose_tower, check_tower_keys, key_state,
  send_tower_data, spend_key, win_tower, fight_with_key, fight_tower, send_stage_reward,
}

-- The towers that may be fought: any at first, and then the next one.
abbrev pub IsNext : Env → ℤ → ℤ → Type 0
IsNext e curr id =
    (curr ≡ pos 0)
    ⊎ ((curr <ℤ id)
        × (c : TowerData) × (s : ℤ) × (e.tower_table curr ≡ some c)
        × (c.next ≡ some (id, s)))

choose_tower-IsNext :
    (e : Env) (curr id s : ℤ) → choose_tower e curr id ≡ stage s → IsNext e curr id
unfolding choose_tower
choose_tower-IsNext e curr id s h = elim (Bool-cases (curr =? pos 0)) [
  | inl first ↦ inl (ground (arith, =?-iff curr (pos 0)))
  | inr later ↦ elim (Option-cases (e.tower_table curr)) [
    | inl n ↦ absurd (ground arith)
    | inr (c, at) ↦ elim (Option-cases c.next) [
      | inl n ↦ absurd (ground arith)
      | inr ((next, x), is_next) ↦
          let fresh : curr <ℤ id = ground arith in
          let same : next ≡ id = ground (arith, =?-iff next id) in
          inr (fresh, c, x, at, rw (← same) is_next)
    ]
  ]
]

check_keys-tower : (e : Env) (p : Player) → (check_tower_keys e p).0.tower.curr_id ≡ p.tower.curr_id
unfolding check_tower_keys
check_keys-tower e p =
    let q = record p {
      tower = record (p.tower) { last_get_new_key_time = (key_state e p).last_time };
    } in
    ground (arith, set_resource-OnlyWallet e e.tower_key_id (key_state e p).keys q)

send_tower-tower :
    (e : Env) (b : Bool) (p : Player) → (send_tower_data e b p).0.tower.curr_id ≡ p.tower.curr_id
unfolding send_tower_data send
send_tower-tower e b p = ground (arith, check_keys-tower e p)

spend_key-tower : (e : Env) (k : ℤ) (p : Player) → (spend_key e k p).tower.curr_id ≡ p.tower.curr_id
unfolding spend_key
spend_key-tower e k p = ground (arith, add_resource-OnlyWallet e e.tower_key_id (negsuc 0) p)

win_tower-tower :
    (e : Env) (id : ℤ) (l : Slice) (p : Player) → (win_tower e id l p).tower.curr_id ≡ id
unfolding win_tower send_stage_reward send
win_tower-tower e id none p = refl
win_tower-tower e id (some []) p = refl
win_tower-tower e id (some (n ∷ l)) p =
    let moved = record p { tower = record (p.tower) { curr_id = id; pass_tower_time = e.now } } in
    ground (arith, add_pairs-OnlyWallet e (pairs (n ∷ l)) (send (tower_rank id e.now) moved))

fight_with_key-tower :
    (e : Env) (fight : Fight) (pid id s : ℤ) (l : Slice) (k : ℤ) (m : Saves) (p : Player)
    → let (q, m', r) = fight_with_key e fight pid id s l k m p in
      ((r ≡ success)
        × (pos 0 <ℤ k)
        × (q.tower.curr_id ≡ (if (fight s).1 then id else p.tower.curr_id)))
      ⊎ ((r ≢ success) × (q ≡ p) × (m' ≡ m))
unfolding fight_with_key send
fight_with_key-tower e fight pid id s l k m p =
    elim (Bool-cases (k ≤? pos 0 || (fight s).0 <? pos 0)) [
      | inl stop ↦ inr (ground arith, ground arith, ground arith)
      | inr go ↦
          let q = send (tower_battle_result id (fight s).1) (spend_key e k p) in
          inl (
            ground arith,
            ground arith,
            ground (
              arith,
              send_tower-tower e true (win_tower e id l q),
              send_tower-tower e true q,
              win_tower-tower e id l q,
              spend_key-tower e k p,
            ),
          )
    ]

choice_cases :
    (c : Choice) → ((s : ℤ) × (c ≡ stage s)) ⊎ ((r : Ret) × (c ≡ refused r)) ⊎ (c ≡ panic)
choice_cases (stage s) = inl (s, refl)
choice_cases (refused r) = inr (inl (r, refl))
choice_cases panic = inr (inr refl)

check_keys-state : (e : Env) (p : Player) → (check_tower_keys e p).2 ≡ key_state e p
unfolding check_tower_keys
check_keys-state e p = ground arith

choose_tower-refused :
    (e : Env) (curr id : ℤ) (r : Ret) → choose_tower e curr id ≡ refused r → r ≢ success
unfolding choose_tower
choose_tower-refused e curr id r h k = elim (Option-cases (e.tower_table curr)) [
  | inl n ↦ ground (arith)
  | inr (c, at) ↦ elim (Option-cases c.next) [
    | inl n ↦ ground arith
    | inr (x, is_next) ↦ ground arith
  ]
]

module _ (e : Env) (fight : Fight) (pid id : ℤ) (m m' : Saves) (p q : Player) (r : Ret) where
  refused_fight :
      (x : Ret)
      → choose_tower e p.tower.curr_id id ≡ refused x
      → fight_tower e fight pid id m p ≡ some (q, m', r)
      → (r ≢ success) × (q.tower.curr_id ≡ p.tower.curr_id) × (m' ≡ m)
  unfolding fight_tower
  refused_fight x c h =
      let end = rw (c, fight_tower) at h in
      (
        λ k. choose_tower-refused e _ _ x c (ground (arith, end)),
        ground (arith, end),
        ground (arith, end),
      )

  missing_stage :
      (s : ℤ)
      → choose_tower e p.tower.curr_id id ≡ stage s
      → e.stage_table s ≡ none
      → fight_tower e fight pid id m p ≡ some (q, m', r)
      → (r ≢ success) × (q.tower.curr_id ≡ p.tower.curr_id) × (m' ≡ m)
  unfolding fight_tower
  missing_stage s c t h =
      let end = rw (c, fight_tower, t) at h in
      (λ k. ground (arith, end), ground (arith, end), ground (arith, end))

-- Where fight_tower returns: a fight that counts is over the next tower (any at first), with a key
-- after the keys are checked, and it moves the player to that tower exactly if the battle on the
-- tower's stage is won; a fight that is refused moves the player nowhere and saves nothing.
pub fight_tower-IsNext :
    (e : Env) (fight : Fight) (pid id : ℤ) (m m' : Saves) (p q : Player) (r : Ret)
    → fight_tower e fight pid id m p ≡ some (q, m', r)
    → ((r ≡ success)
        × IsNext e p.tower.curr_id id
        × (pos 0 <ℤ (key_state e p).keys)
        × (s : ℤ) × (choose_tower e p.tower.curr_id id ≡ stage s)
        × (q.tower.curr_id ≡ (if (fight s).1 then id else p.tower.curr_id)))
      ⊎ ((r ≢ success) × (q.tower.curr_id ≡ p.tower.curr_id) × (m' ≡ m))
unfolding fight_tower
fight_tower-IsNext e fight pid id m m' p q r h =
    elim (choice_cases (choose_tower e p.tower.curr_id id)) [
      | inl (s, c) ↦ elim (Option-cases (e.stage_table s)) [
        | inl n ↦ inr (missing_stage e fight pid id m m' p q r s c n h)
        | inr (l, t) ↦
            let f =
              fight_with_key-tower e fight pid id s l (key_state e p).keys m
                (check_tower_keys e p).0 in
            let made : fight_with_key e fight pid id s l (key_state e p).keys m
                  (check_tower_keys e p).0
                ≡ (q, m', r) =
              ground (arith, rw (c, fight_tower, t, check_keys-state e p) at h) in
            elim f [
              | inl (ok, key, moved) ↦ inl (
                ground (arith, ok, made),
                choose_tower-IsNext e p.tower.curr_id id s c,
                key,
                s,
                c,
                ground (arith, moved, made, check_keys-tower e p),
              )
              | inr (refusal, same, saved) ↦ inr (
                ground (arith, refusal, made),
                ground (arith, same, made, check_keys-tower e p),
                ground (arith, saved, made),
              )
            ]
      ]
      | inr (inl (x, c)) ↦ inr (refused_fight e fight pid id m m' p q r x c h)
      | inr (inr c) ↦ absurd (ground (arith, rw (c, fight_tower) at h))
    ]
