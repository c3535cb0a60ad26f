-- ===== src/Player/Drop/Range.antt =====
-- rand31n_from_range of src/hall_server/utils.go stays in its range.
use ih_server.Base.{
  ℤ, pos, negsuc, ◌≤ℤ◌, ◌<ℤ◌, ◌+₃₂◌, ◌-₃₂◌, ◌+ℤ◌, ◌-ℤ◌, wrap32, ◌=?◌, ◌<?◌, ◌≤?◌, some, Bool-cases,
  inl, inr, false, ◌≡◌, refl, arith,
}
use ih_server.Player.Drop.{rand31n_from_range}

-- rand.Int31n of a positive number.
abbrev pub Random : (ℤ → ℤ) → Type 0
Random int31n = (n : ℤ) → pos 0 <ℤ n → (pos 0 ≤ℤ int31n n) × (int31n n <ℤ n)

range_size :
    (a b : ℤ)
    → pos 0 ≤ℤ a
    → a ≤ℤ b
    → b <ℤ pos 2147483647
    → (pos 0 <ℤ b -₃₂ a +₃₂ pos 1) × (b -₃₂ a +₃₂ pos 1 ≡ b -ℤ a +ℤ pos 1)
unfolding ◌+₃₂◌ ◌-₃₂◌ ◌+ℤ◌ ◌-ℤ◌ wrap32
range_size (pos a) (pos b) low le high = ground (arith, le, high)
range_size (pos a) (negsuc b) low le high = absurd (omega (arith, le))
range_size (negsuc a) b low le high = absurd (omega (arith, low))

range_sum :
    (a b x : ℤ)
    → pos 0 ≤ℤ a
    → b <ℤ pos 2147483647
    → pos 0 ≤ℤ x
    → x <ℤ b -ℤ a +ℤ pos 1
    → (a ≤ℤ x +₃₂ a) × (x +₃₂ a ≤ℤ b)
unfolding ◌+₃₂◌ ◌+ℤ◌ ◌-ℤ◌ wrap32
range_sum (pos a) (pos b) (pos x) low high up lt = ground (arith, high, lt)
range_sum (pos a) (negsuc b) (pos x) low high up lt = absurd (ground (arith, lt))
range_sum (negsuc a) b x low high up lt = absurd (omega (arith, low))
range_sum (pos a) b (negsuc x) low high up lt = absurd (omega (arith, up))

pub rand31n_from_range_lem :
    (int31n : ℤ → ℤ) (a b : ℤ)
    → Random int31n
    → pos 0 ≤ℤ a
    → a ≤ℤ b
    → b <ℤ pos 2147483647
    → (num : ℤ) × (rand31n_from_range int31n a b ≡ some num) × (a ≤ℤ num) × (num ≤ℤ b)
unfolding rand31n_from_range
rand31n_from_range_lem int31n a b random low le high =
    let ordered : (b <? a) ≡ false = ground (arith, le) in
    elim (Bool-cases (a =? b)) [
      | inl same ↦ rw (rand31n_from_range, ordered, same) (a, refl, omega arith, le)
      | inr other ↦
          let (positive, exact) = range_size a b low le high in
          let size : (b -₃₂ a +₃₂ pos 1 ≤? pos 0) ≡ false = ground (arith, positive) in
          let (up, lt) = random (b -₃₂ a +₃₂ pos 1) positive in
          let (above, below) =
            range_sum a b (int31n (b -₃₂ a +₃₂ pos 1)) low high up (ground (arith, lt, exact)) in
          rw (rand31n_from_range, ordered, other, size)
            (int31n (b -₃₂ a +₃₂ pos 1) +₃₂ a, refl, above, below)
    ]
