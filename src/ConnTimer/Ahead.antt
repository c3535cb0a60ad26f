-- ===== src/ConnTimer/Ahead.antt =====
-- The indices of the wheel, and how far a turn goes.
use mathlib.Core.List.{append-nil}
use native.Mathlib.Nat.{mod-eq_of_lt, mod-eq-sub-mod}
use ih_server.Base.{
  ℕ, zero, suc, ◌+◌, ◌-◌, ◌%◌, ◌<◌, ◌≤◌, ℤ, pos, negsuc, pos_part, ◌+₃₂◌, ◌-₃₂◌, ◌+ℤ◌, ◌-ℤ◌, wrap32,
  rem, Bool-cases, inl, inr, ◌⊎◌, Bool, if◌then◌else◌, ◌==◌, leb, length, ◌≡◌, refl, arith,
}
use ih_server.ConnTimer.{ConnTimerWheel, index_ahead, target, sweep, visit}
use ih_server.ConnTimer.Inv.{WellFormed}
use ih_server.ConnTimer.Sweep.{ahead, sweep_slots, visit-Steady}

-- A remainder of less than twice the modulus.
mod_near : (a n : ℕ) → a < n + n → a % n ≡ (if leb n a then a - n else a)
mod_near a n h = elim (Bool-cases (leb n a)) [
  | inl big ↦ ground (
    arith,
    big,
    mod-eq-sub-mod {n = a} {m = n} (ground (arith, big)),
    mod-eq_of_lt {n = a - n} {m = n} (ground (arith, big, h)),
  )
  | inr small ↦ ground (arith, small, mod-eq_of_lt {n = a} {m = n} (ground (arith, small)))
]

-- The index of the wheel is -1 or that of a slot.
abbrev pub IsIndex : ℕ → ℤ → Type 0
IsIndex len i = (i ≡ negsuc 0) ⊎ ((c : ℕ) × (i ≡ pos c) × (c < len))

pub next_index :
    (len i : ℕ)
    → i < len
    → len + len ≤ 2147483647
    → pos_part (rem (pos i +₃₂ pos 1) len) ≡ ahead len i 1
unfolding ◌+₃₂◌ ◌+ℤ◌ wrap32 rem
next_index len i lt small = ground (arith, mod_near (i + 1) len (omega (arith, lt)), lt, small)

-- The slot that comes next, and the slots from there on.
pub index_ahead_near :
    (w : ConnTimerWheel) (len d : ℕ)
    → length w.timer_lists ≡ len
    → IsIndex len w.curr_timer_index
    → len + len ≤ 2147483647
    → d < len
    → index_ahead w (pos (suc d)) ≡ ahead len (index_ahead w (pos 1)) d
unfolding index_ahead ◌+₃₂◌ ◌+ℤ◌ wrap32 rem
index_ahead_near w len d slots (inl is_start) small lt =
    rw (slots, is_start)
      (ground
        (arith, mod_near d len (omega (arith, lt)), mod_near 0 len (omega (arith, lt)), small, lt))
index_ahead_near w len d slots (inr (c, is_c, c_lt)) small lt =
    let near = mod_near (c + 1) len (omega (arith, c_lt)) in
    let far = mod_near (c + suc d) len (omega (arith, c_lt, lt)) in
    rw (slots, is_c) (ground (arith, near, far, small, lt, c_lt))

pub index_ahead_bound :
    (w : ConnTimerWheel) (len : ℕ)
    → length w.timer_lists ≡ len
    → IsIndex len w.curr_timer_index
    → len + len ≤ 2147483647
    → 0 < len
    → index_ahead w (pos 1) < len
unfolding index_ahead ◌+₃₂◌ ◌+ℤ◌ wrap32 rem
index_ahead_bound w len slots (inl is_start) small lt =
    rw (slots, is_start) (ground (arith, mod_near 0 len (omega (arith, lt)), lt))
index_ahead_bound w len slots (inr (c, is_c, c_lt)) small lt =
    rw (slots, is_c) (ground (arith, mod_near (c + 1) len (omega (arith, c_lt)), lt, small, c_lt))

-- How many slots a turn of so many seconds goes over: as many, or all but one at least.
pub record Turn (len secs : ℕ) (w : ConnTimerWheel) (n : ℕ) : Type 0 where
  pub some_slots : 0 < n
  pub all_slots : n ≤ len
  pub until : target (pos secs) w ≡ ahead len (index_ahead w (pos 1)) (n - 1)
  pub short : secs < len → n ≡ secs
  pub long : len ≤ secs → len ≤ n + 1

target_soon :
    (w : ConnTimerWheel) (len d : ℕ)
    → length w.timer_lists ≡ len
    → IsIndex len w.curr_timer_index
    → len + len ≤ 2147483647
    → suc d < len
    → target (pos (suc d)) w ≡ ahead len (index_ahead w (pos 1)) d
unfolding target
target_soon w len d slots index small lt =
    ground (arith, slots, lt, index_ahead_near w len d slots index small (omega (arith, lt)))

target_late :
    (w : ConnTimerWheel) (len secs : ℕ)
    → length w.timer_lists ≡ len
    → len + len ≤ 2147483647
    → 1 < len
    → len ≤ secs
    → w.curr_timer_index ≡ negsuc 0
    → target (pos secs) w ≡ ahead len (index_ahead w (pos 1)) (len - 1)
unfolding target index_ahead ◌+₃₂◌ ◌-₃₂◌ ◌+ℤ◌ ◌-ℤ◌ wrap32 rem
target_late w len secs slots small many late is_start =
    rw (slots, is_start)
      (ground (arith, mod_near 0 len (omega (arith, many)), slots, small, many, late))

pub index_from :
    (w : ConnTimerWheel) (len c : ℕ)
    → length w.timer_lists ≡ len
    → len + len ≤ 2147483647
    → w.curr_timer_index ≡ pos c
    → c < len
    → index_ahead w (pos 1) ≡ ahead len c 1
unfolding index_ahead
index_from w len c slots small is_c c_lt = rw (slots, is_c) (next_index len c c_lt small)

target_back :
    (w : ConnTimerWheel) (len secs c : ℕ)
    → length w.timer_lists ≡ len
    → len + len ≤ 2147483647
    → len ≤ secs
    → w.curr_timer_index ≡ pos c
    → c < len
    → target (pos secs) w ≡ (if c == 0 then len - 1 else c - 1)
unfolding target ◌-₃₂◌ ◌-ℤ◌ wrap32
target_back w len secs c slots small late is_c c_lt =
    rw (slots, is_c) (ground (arith, slots, small, late, c_lt))

target_far :
    (w : ConnTimerWheel) (len secs c : ℕ)
    → length w.timer_lists ≡ len
    → len + len ≤ 2147483647
    → 1 < len
    → len ≤ secs
    → w.curr_timer_index ≡ pos c
    → c < len
    → target (pos secs) w ≡ ahead len (index_ahead w (pos 1)) (len - 1 - 1)
target_far w len secs c slots small many late is_c c_lt =
    rw
      (
        target_back w len secs c slots small late is_c c_lt,
        index_from w len c slots small is_c c_lt,
      )
      (ground (arith, many, c_lt))

pub target-Turn :
    (w : ConnTimerWheel) (len secs : ℕ)
    → length w.timer_lists ≡ len
    → IsIndex len w.curr_timer_index
    → len + len ≤ 2147483647
    → 1 < len
    → 0 < secs
    → (n : ℕ) × Turn len secs w n
target-Turn w len zero slots index small many late = absurd (omega (arith, late))
target-Turn w len (suc d) slots index small many late = elim (Bool-cases (leb len (suc d))) [
  | inr soon ↦ (
    suc d,
    record {
      some_slots = late;
      all_slots = ground (arith, soon);
      until = ground (arith, target_soon w len d slots index small (ground (arith, soon)));
      short = λ h. refl;
      long = λ h. absurd (ground (arith, soon, h));
    },
  )
  | inl long ↦ elim index [
    | inl is_start ↦ (
      len,
      record {
        some_slots = ground (arith, many);
        all_slots = omega arith;
        until = target_late w len (suc d) slots small many (ground (arith, long)) is_start;
        short = λ h. absurd (ground (arith, long, h));
        long = λ h. omega arith;
      },
    )
    | inr (c, is_c, c_lt) ↦ (
      len - 1,
      record {
        some_slots = ground (arith, many);
        all_slots = omega arith;
        until = target_far w len (suc d) c slots small many (ground (arith, long)) is_c c_lt;
        short = λ h. absurd (ground (arith, long, h));
        long = λ h. omega arith;
      },
    )
  ]
]

-- The loop of Run over the slots, with as much fuel as there are slots.
pub sweep-sweep_slots :
    (known : ℤ → Bool) (len fuel n i : ℕ) (w : ConnTimerWheel)
    → WellFormed w
    → length w.timer_lists ≡ len
    → len + len ≤ 2147483647
    → i < len
    → n < fuel
    → n < len
    → sweep fuel known (ahead len i n) i w ≡ sweep_slots known len (suc n) i w
unfolding sweep sweep_slots
sweep-sweep_slots known len zero n i w h slots small lt fuelled in_len =
    absurd (omega (arith, fuelled))
sweep-sweep_slots known len (suc fuel) zero i w h slots small lt fuelled in_len =
    ground (arith, lt, append-nil (visit known i w).1)
sweep-sweep_slots known len (suc fuel) (suc n) i w h slots small lt fuelled in_len =
    let v = (visit known i w).0 in
    let s = visit-Steady known len i w h slots lt in
    let next = next_index len i lt small in
    let same : ahead len i (suc n) ≡ ahead len (ahead len i 1) n = ground (arith, lt, in_len) in
    let rest =
      sweep-sweep_slots known len fuel n (ahead len i 1) v s.well s.slots small (ground (arith, lt))
        (omega (arith, fuelled)) (omega (arith, in_len)) in
    rw (slots, next, same, rest) (ground (arith, lt, in_len))
