-- ===== src/Player/Tower/Keys.antt =====
-- src/hall_server/player_tower.go: the keys that time makes, and what a fight takes and gives.
use ih_server.Base.{
  ℕ, zero, suc, ◌+◌, ◌-◌, ◌*◌, ◌/◌, ◌%◌, ◌≤◌, ◌<◌, pos, ◌+₃₂◌, ◌-₃₂◌, ◌+ℤ◌, ◌-ℤ◌, wrap32, quot, rem,
  ◌≡◌, refl, sym, ap, ◌∙◌, arith,
}
use native.Mathlib.Nat.{mod-add-div, mod-lt, add-mul-div_right, add-mul-mod_self_right}
use ih_server.Player.Tower.{grow_keys, KeyState}

-- Below the maximum: a key for each whole interval, and the rest of the time is kept.
abbrev kept : ℕ → ℕ → ℕ → ℕ → KeyState
kept t n a l = record {
  keys = pos (a + (t - l) / suc n);
  last_time = pos (l + (t - l) / suc n * suc n);
  remain = pos (suc n - (t - l) % suc n);
}

grow_keys-kept :
    (t m n a l : ℕ)
    → t + m < 2147483648
    → n < 2147483647
    → suc zero ≤ l
    → l ≤ t
    → a + (t - l) / suc n < m
    → grow_keys (pos t) (pos m) n (pos a) (pos l) ≡ kept t n a l
unfolding grow_keys quot rem ◌+₃₂◌ ◌-₃₂◌ ◌+ℤ◌ ◌-ℤ◌ wrap32
grow_keys-kept t m n a l h k o le b =
    let dm = mod-add-div (t - l) (suc n) in
    let lt = mod-lt (t - l) {m = suc n} (omega arith) in ground (arith, dm, lt)

-- The time since the last key, split at an earlier look.
split_at :
    (s t n l : ℕ)
    → l ≤ s
    → s ≤ t
    → let d = (s - l) / suc n in
      let x = t - (l + d * suc n) in
      (x / suc n + d ≡ (t - l) / suc n) × (x % suc n ≡ (t - l) % suc n) × (l + d * suc n ≤ s)
split_at s t n l h k =
    let d = (s - l) / suc n in
    let x = t - (l + d * suc n) in
    let dm = mod-add-div (s - l) (suc n) in
    let comm : d * suc n ≡ suc n * d = ground arith in
    let whole : x + d * suc n ≡ t - l = omega (arith, dm, comm) in
    (
      sym (add-mul-div_right x d {z = suc n} (omega arith)) ∙ ap (λ y. y / suc n) whole,
      sym (add-mul-mod_self_right x d (suc n)) ∙ ap (λ y. y % suc n) whole,
      omega (arith, dm, comm),
    )

same_kept :
    (a d l y z N r r' : ℕ)
    → y + d ≡ z
    → r ≡ r'
    → Path KeyState
        (record {
          keys = pos (a + d + y);
          last_time = pos (l + d * N + y * N);
          remain = pos (N - r);
        })
        (record { keys = pos (a + z); last_time = pos (l + z * N); remain = pos (N - r') })
same_kept a d l y z N r r' h k =
    let one : a + d + y ≡ a + z = omega (arith, h) in
    let two : l + d * N + y * N ≡ l + z * N = rw (← h) ground arith in rw (one, two, k) refl

-- A look at the keys in between makes no difference to a later look, where the later one is still
-- below the maximum: no time is lost or counted twice. The time of the last key is set and not after
-- the first look, and the sums fit an int32.
pub looks_lose_no_time :
    (s t m n a l : ℕ)
    → t + m < 2147483648
    → n < 2147483647
    → suc zero ≤ l
    → l ≤ s
    → s ≤ t
    → a + (t - l) / suc n < m
    → let k = grow_keys (pos s) (pos m) n (pos a) (pos l) in
      grow_keys (pos t) (pos m) n k.keys k.last_time ≡ grow_keys (pos t) (pos m) n (pos a) (pos l)
looks_lose_no_time s t m n a l h k o le st b =
    let d = (s - l) / suc n in
    let w = split_at s t n l le st in
    rw (grow_keys-kept s m n a l (omega arith) k o le (omega (arith, w.0))) (
      rw
        (
          grow_keys-kept t m n (a + d) (l + d * suc n) h k (omega arith) (omega (arith, w.2))
              (omega (arith, w.0)),
          grow_keys-kept t m n a l h k o (omega arith) b,
        )
        (same_kept a d l _ _ (suc n) _ _ w.0 w.1))

-- Once the time has made enough keys, from some that are not above the maximum, they are the maximum
-- and none is awaited. The time of the last key is set and not after the look, and the sums fit an
-- int32.
pub keys_fill :
    (t m n a l : ℕ)
    → t + m < 2147483648
    → n < 2147483647
    → suc zero ≤ l
    → l ≤ t
    → a ≤ m
    → m ≤ a + (t - l) / suc n
    → let k = grow_keys (pos t) (pos m) n (pos a) (pos l) in (k.keys ≡ pos m) × (k.remain ≡ pos 0)
unfolding grow_keys quot rem ◌+₃₂◌ ◌-₃₂◌ ◌+ℤ◌ ◌-ℤ◌ wrap32
keys_fill t m n a l h k o le am b =
    let dm = mod-add-div (t - l) (suc n) in
    let lt = mod-lt (t - l) {m = suc n} (omega arith) in ground (arith, dm, lt)
