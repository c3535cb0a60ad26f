-- ===== src/ServerList/Weights.antt =====
-- The weights that _read_config accepts, and their sum.
use ih_server.Base.{
  ℕ, ◌+◌, ◌≤◌, ℤ, pos, pos_part, ◌+₃₂◌, ◌+ℤ◌, wrap32, ◌<?◌, ◌≤ℤ◌, List, [], ◌∷◌, Option, none, some,
  Bool-cases, ◌⊎◌, inl, inr, ◌≡◌, refl, arith,
}
use ih_server.ServerList.{HallServerInfo, Weighing, nil_server, invalid, weigh, total}

-- The weight of an element of the slice.
abbrev pub weight_of : Option HallServerInfo → ℕ
weight_of none = 0
weight_of (some s) = pos_part s.weight

-- The sum of the weights, which are not negative, without wrap-around.
abbrev pub total_of : List (Option HallServerInfo) → ℕ
total_of [] = 0
total_of (o ∷ l) = weight_of o + total_of l

-- No server is nil, and none has a negative weight.
pub data AllWeighed : List (Option HallServerInfo) → Type 0 where
  no_servers : AllWeighed []
  one_more :
      {s : HallServerInfo} {l : List (Option HallServerInfo)}
      → pos 0 ≤ℤ s.weight
      → AllWeighed l
      → AllWeighed (some s ∷ l)

pub weigh-AllWeighed :
    (l : List (Option HallServerInfo)) (t w : ℤ) → weigh l t ≡ total w → AllWeighed l
unfolding weigh
weigh-AllWeighed [] t w h = no_servers
weigh-AllWeighed (none ∷ l) t w h = absurd (ground (arith, h))
weigh-AllWeighed (some s ∷ l) t w h = elim (Bool-cases (s.weight <? pos 0)) [
  | inl low ↦ absurd (ground (arith, h, low))
  | inr fine ↦
      one_more (ground (arith, fine))
        (weigh-AllWeighed l (t +₃₂ s.weight) w (ground (arith, h, fine)))
]

pub weigh-total_of :
    (l : List (Option HallServerInfo)) (t : ℕ)
    → AllWeighed l
    → t + total_of l ≤ 2147483647
    → weigh l (pos t) ≡ total (pos (t + total_of l))
unfolding weigh ◌+₃₂◌ ◌+ℤ◌ wrap32
weigh-total_of _ t no_servers h = ground arith
weigh-total_of _ t (one_more {s} {l} nonneg more) h =
    ground (arith, nonneg, weigh-total_of l (t + pos_part s.weight) more (omega (arith, h)))

pub Weighing-cases : (w : Weighing) → (w ≡ nil_server) ⊎ (w ≡ invalid) ⊎ ((t : ℤ) × (w ≡ total t))
Weighing-cases nil_server = inl refl
Weighing-cases invalid = inr (inl refl)
Weighing-cases (total t) = inr (inr (t, refl))
