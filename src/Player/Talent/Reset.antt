-- ===== src/Player/Talent/Reset.antt =====
-- src/hall_server/player_talent.go: a reset forgets the talents of a page, and only those.
use ih_server.Base.{
  ℕ, zero, suc, ℤ, pos, pos_part, ◌+₃₂◌, ◌<?◌, ◌≤?◌, =?-iff, ◌=?◌, List, [], ◌∷◌, Option, none,
  some, Option-cases, Bool-cases, inl, inr, Bool, true, false, ◌&&◌, ◌||◌, if◌then◌else◌, lookup,
  is_some, lookup-delete, ◌≡◌, ◌≢◌, ◌⊎◌, refl, sym, ◌∙◌, Dict, length, arith,
}
use ih_server.Player.Env.{Env, TalentData}
use ih_server.Player.State.{Player, success, send, pairs}
use ih_server.Player.Resource.{add_diamond}
use ih_server.Player.Resource.Frame.{add_pairs-OnlyWallet}
use ih_server.Player.Talent.{level_of, reset_level, reset_levels, reset_talents, keys, talent_reset}

-- Whether one of the levels of a talent, of `n` from `l`, belongs to a page.
abbrev row_in : ℤ → Option TalentData → Bool
row_in tag none = false
row_in tag (some t) = t.tag =? tag

pub on_page : Env → ℤ → ℤ → ℕ → ℤ → Bool
on_page e tag id zero l = false
on_page e tag id (suc n) l = row_in tag (e.talent_table id l) || on_page e tag id n (l +₃₂ pos 1)

abbrev mem : ℤ → List ℤ → Bool
mem j [] = false
mem j (i ∷ l) = if i =? j then true else mem j l

module _ (e : Env) (tag : ℤ) where
  level-talents :
      (id l : ℤ) (p : Player) (m : Dict ℤ) (j : ℤ)
      → lookup j (reset_level e tag id l (p, m)).0.talents
        ≡ (if (id =? j) && row_in tag (e.talent_table id l) then none else lookup j p.talents)
  unfolding reset_level
  level-talents id l p m j = elim (Option-cases (e.talent_table id l)) [
    | inl n ↦ rw (n, reset_level) ground arith
    | inr (t, n) ↦
        rw (n, reset_level)
          (ground
            (arith, add_pairs-OnlyWallet e (pairs t.upgrade_cost) p, lookup-delete id j p.talents))
  ]

  levels-talents :
      (id : ℤ) (n : ℕ) (l : ℤ) (s : Player × Dict ℤ) (j : ℤ)
      → lookup j (reset_levels e tag id n l s).0.talents
        ≡ (if (id =? j) && on_page e tag id n l then none else lookup j s.0.talents)
  unfolding reset_levels on_page
  levels-talents id zero l s j = ground arith
  levels-talents id (suc n) l s j =
      let t = reset_level e tag id l s in
      ground (arith, level-talents id l s.0 s.1 j, levels-talents id n (l +₃₂ pos 1) t j)

  -- What is left of a talent.
  abbrev pub left : Player → ℤ → Option ℤ
  left p j = if on_page e tag j (pos_part (level_of p j)) (pos 1) then none else lookup j p.talents

  left-none : (p : Player) (j : ℤ) → lookup j p.talents ≡ none → left p j ≡ none
  unfolding on_page
  left-none p j n = rw n refl

  left-same : (p q : Player) (j : ℤ) → lookup j q.talents ≡ lookup j p.talents → left q j ≡ left p j
  left-same p q j h = rw h refl

  -- A talent that was left is left again.
  left-twice : (p q : Player) (j : ℤ) → lookup j q.talents ≡ left p j → left q j ≡ left p j
  left-twice p q j h = elim (Bool-cases (on_page e tag j (pos_part (level_of p j)) (pos 1))) [
    | inl gone ↦ left-none q j (h ∙ rw gone refl) ∙ sym (rw gone refl)
    | inr here ↦ left-same p q j (h ∙ rw here refl)
  ]

  talents-left :
      (ids : List ℤ) (s : Player × Dict ℤ) (j : ℤ)
      → lookup j (reset_talents e tag ids s).0.talents
        ≡ (if mem j ids then left s.0 j else lookup j s.0.talents)
  unfolding reset_talents
  talents-left [] s j = refl
  talents-left (id ∷ ids) s j =
      let n = pos_part (level_of (s.0) id) in
      let t = reset_levels e tag id n (pos 1) s in
      let at = levels-talents id n (pos 1) s j in
      elim (Bool-cases (id =? j)) [
        | inl same ↦
            let is_j = (=?-iff id j).0 same in
            let one : lookup j t.0.talents ≡ left s.0 j = at ∙ rw same (rw is_j refl) in
            talents-left ids t j ∙ ground (arith, one, left-twice s.0 t.0 j one, same)
        | inr other ↦
            let one : lookup j t.0.talents ≡ lookup j s.0.talents = at ∙ rw other refl in
            talents-left ids t j ∙ ground (arith, one, left-same s.0 t.0 j one, other)
      ]

keys-mem : (m : Dict ℤ) (j : ℤ) → mem j (keys m) ≡ is_some (lookup j m)
unfolding lookup
keys-mem [] j = refl
keys-mem ((i, v) ∷ m) j = ground (arith, keys-mem m j)

-- talent_reset forgets the talents that have a level on the page, and keeps the others as they
-- are; a request that is refused changes nothing.
pub talent_reset-left :
    (e : Env) (tag : ℤ) (p : Player)
    → let (q, r) = talent_reset e tag p in
      ((r ≡ success) × ((j : ℤ) → lookup j q.talents ≡ left e tag p j)) ⊎ ((r ≢ success) × (q ≡ p))
unfolding talent_reset add_diamond send
talent_reset-left e tag p =
    let s = reset_talents e tag (keys p.talents) (p, []) in
    elim (Bool-cases
      (pos (length p.talents) ≤? pos 0 || p.diamond <? e.talent_reset_cost_diamond)) [
        | inl bad ↦ inr (ground arith, ground arith)
        | inr good ↦ inl (
          ground arith,
          λ j.
              let at = talents-left e tag (keys p.talents) (p, []) j in
              let k = keys-mem p.talents j in
              let done : lookup j s.0.talents ≡ left e tag p j =
                elim (Option-cases (lookup j p.talents)) [
                  | inl n ↦ at ∙ ground (arith, k, n, left-none e tag p j n)
                  | inr (v, n) ↦ rw (at, k, n) refl
                ] in
              ground (arith, done),
        )
      ]
