-- ===== src/ServerList/Choice.antt =====
-- RandomOneServer chooses each server for as many numbers as its weight.
use Prim.Native.String.{String}
use ih_server.Base.{
  ℕ, zero, suc, ◌+◌, ◌-◌, ◌≤◌, ◌<◌, ℤ, pos, pos_part, ◌-₃₂◌, ◌-ℤ◌, wrap32, ◌≤?◌, ltb, List, [], ◌∷◌,
  Option, some, true, false, Bool-cases, Option-cases, inl, inr, get_elem?, take, ◌≡◌, refl, arith,
}
use ih_server.ServerList.{
  HallServerInfo, ServerList, Codec, choose, random_one_server, read_config, index_crosses, weigh,
}
use ih_server.ServerList.Weights.{
  total_of, AllWeighed, no_servers, one_more, weigh-AllWeighed, weigh-total_of, Weighing-cases,
}

-- The number `r` falls on the stretch of a server: the stretches of the servers follow each other, each
-- as long as the weight of its server.
pub record Falls (l : List (Option HallServerInfo)) (r i : ℕ) (s : HallServerInfo) : Type 0 where
  pub there : get_elem? l i ≡ some (some s)
  pub from : total_of (take i l) ≤ r
  pub until : r < total_of (take i l) + pos_part s.weight

behind :
    {o : Option HallServerInfo} {l : List (Option HallServerInfo)} {r q i : ℕ} {s : HallServerInfo}
    → total_of (o ∷ []) + q ≡ r
    → Falls l q i s
    → Falls (o ∷ l) r (suc i) s
behind e f = record {
  there = f.there;
  from = omega (arith, f.from, e);
  until = omega (arith, f.until, e);
}

pub choose-Falls :
    (l : List (Option HallServerInfo)) (r : ℕ)
    → AllWeighed l
    → r < total_of l
    → total_of l ≤ 2147483647
    → (i : ℕ) × (s : HallServerInfo) × Falls l r i s × (choose l (pos r) ≡ some (some s))
unfolding choose ◌-₃₂◌ ◌-ℤ◌ wrap32
choose-Falls _ r no_servers lt le = absurd (omega (arith, lt))
choose-Falls _ r (one_more {s} {l} nonneg more) lt le =
    elim (Bool-cases (ltb r (pos_part s.weight))) [
      | inl here ↦ (
        0,
        s,
        record { there = refl; from = omega arith; until = ground (arith, here) },
        ground (arith, here, nonneg),
      )
      | inr later ↦
          let (i, t, f, is_t) =
            choose-Falls l (r - pos_part s.weight) more (ground (arith, later))
              (omega (arith, le)) in
          (suc i, t, behind (ground (arith, later)) f, ground (arith, later, nonneg, is_t, le))
    ]

-- Stretches do not overlap.
prefix_grows :
    (l : List (Option HallServerInfo)) (i j : ℕ) (s : HallServerInfo)
    → get_elem? l i ≡ some (some s)
    → i < j
    → total_of (take i l) + pos_part s.weight ≤ total_of (take j l)
prefix_grows [] i j s h lt = absurd (ground (arith, h))
prefix_grows (o ∷ l) zero zero s h lt = absurd (omega (arith, lt))
prefix_grows (o ∷ l) zero (suc j) s h lt = ground (arith, h)
prefix_grows (o ∷ l) (suc i) zero s h lt = absurd (omega (arith, lt))
prefix_grows (o ∷ l) (suc i) (suc j) s h lt =
    omega (arith, prefix_grows l i j s h (omega (arith, lt)))

Falls-same :
    (l : List (Option HallServerInfo)) (r i j : ℕ) (s t : HallServerInfo)
    → Falls l r i s
    → Falls l r j t
    → s ≡ t
Falls-same l r i j s t f g = elim (Bool-cases (ltb i j)) [
  | inl less ↦
      absurd (omega (arith, prefix_grows l i j s f.there (ground (arith, less)), f.until, g.from))
  | inr not_less ↦ elim (Bool-cases (ltb j i)) [
    | inl more ↦
        absurd (omega (arith, prefix_grows l j i t g.there (ground (arith, more)), g.until, f.from))
    | inr not_more ↦
        let same : i ≡ j = ground (arith, not_less, not_more) in
        ground (arith, f.there, g.there, same)
  ]
]

index_crosses-same :
    (s : ServerList)
    → ((index_crosses s).servers ≡ s.servers) × ((index_crosses s).total_weight ≡ s.total_weight)
unfolding index_crosses
index_crosses-same s = elim (Option-cases s.cross_list) [
  | inl nil ↦ rw nil (refl, refl)
  | inr (l, is_l) ↦ rw is_l (refl, refl)
]

module _ (codec : Codec) where
  accepted :
      (text : String) (s t : ServerList)
      → read_config codec text s ≡ some (t, true)
      → AllWeighed t.servers
        × (total_of t.servers ≤ 2147483647 → t.total_weight ≡ pos (total_of t.servers))
        × ((t.total_weight ≤? pos 0) ≡ false)
  unfolding read_config
  accepted text s t h = elim (Bool-cases (codec.unmarshal text s).1) [
    | inr bad ↦ absurd (ground (arith, h, bad))
    | inl good ↦
        let l = (codec.unmarshal text s).0.servers in
        elim (Weighing-cases (weigh l (pos 0))) [
          | inl gone ↦ absurd (ground (arith, h, good, gone))
          | inr (inl low) ↦ absurd (ground (arith, h, good, low))
          | inr (inr (w, is_w)) ↦ elim (Bool-cases (w ≤? pos 0)) [
            | inl low ↦ absurd (ground (arith, h, good, is_w, low))
            | inr more ↦
                let u = record ((codec.unmarshal text s).0) { total_weight = w } in
                let (kept, weighed) = index_crosses-same u in
                let same : t.servers ≡ l = ground (arith, h, good, is_w, more, kept) in
                let weight : t.total_weight ≡ w = ground (arith, h, good, is_w, more, weighed) in
                let small : total_of t.servers ≤ 2147483647 → total_of l ≤ 2147483647 =
                  λ le. ground (arith, le, same) in
                (
                  rw same (weigh-AllWeighed l (pos 0) w is_w),
                  λ le. ground (
                    arith,
                    weight,
                    is_w,
                    weigh-total_of l 0 (weigh-AllWeighed l (pos 0) w is_w)
                        (omega (arith, small le)),
                    same,
                  ),
                  ground (arith, weight, more),
                )
          ]
        ]
  ]

  -- A list that _read_config has accepted, whose weights add up to an int32, and a random number below
  -- its total: RandomOneServer does not panic, and returns a server on whose stretch the number falls;
  -- and there is no other such server, so that each is chosen for as many numbers as its weight.
  pub random_one_server-Falls :
      (text : String) (s t : ServerList) (int31n : ℤ → ℤ) (r : ℕ)
      → read_config codec text s ≡ some (t, true)
      → total_of t.servers ≤ 2147483647
      → int31n t.total_weight ≡ pos r
      → r < pos_part t.total_weight
      → ((i : ℕ) × (v : HallServerInfo) × Falls t.servers r i v)
        × ((i : ℕ) (v : HallServerInfo)
            → Falls t.servers r i v
            → random_one_server int31n t ≡ some (some v))
  unfolding random_one_server
  random_one_server-Falls text s t int31n r h le draw lt =
      let (a, sum, more) = accepted text s t h in
      let same = sum le in
      let (i, v, f, is_v) = choose-Falls t.servers r a (ground (arith, lt, same)) le in
      let drawn : random_one_server int31n t ≡ some (some v) = ground (arith, draw, is_v, more) in
      ((i, v, f), λ j w g. let is_w = Falls-same t.servers r i j v w f g in rw (← is_w) drawn)
