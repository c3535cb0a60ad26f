-- ===== src/ConnTimer/Sweep.antt =====
-- A sweep over slots that follow each other: it logs out the players of these slots, and no others.
use ih_server.Base.{
  ℕ, zero, suc, ◌+◌, ◌-◌, ◌<◌, ◌≤◌, ℤ, List, [], ◌++◌, Bool-cases, inl, inr, Bool, true, false,
  if◌then◌else◌, ◌==◌, leb, length, contains, contains-append, ◌≡◌, ◌≢◌, refl, sym, ◌∙◌, arith,
}
use ih_server.ConnTimer.{ConnTimer, ConnTimerWheel, visit}
use ih_server.ConnTimer.Inv.{view, WellFormed}
use ih_server.ConnTimer.Visit.{
  present, view_unique, present-view, view_of_present, Visited, visit-Visited,
}

-- The slot `o` ahead of `i`, of `len` slots.
abbrev pub ahead : ℕ → ℕ → ℕ → ℕ
ahead len i o = if leb len (i + o) then i + o - len else i + o

-- `n` slots from `i` on.
unfoldable pub sweep_slots : (ℤ → Bool) → ℕ → ℕ → ℕ → ConnTimerWheel → ConnTimerWheel × List ℤ
sweep_slots known len zero i w = (w, [])
sweep_slots known len (suc n) i w =
    let (v, out) = visit known i w in
    let (u, more) = sweep_slots known len n (ahead len i 1) v in (u, out ++ more)

-- The player has a timer in the slot.
abbrev pub Timed : ℤ → ℕ → ConnTimerWheel → Type 0
Timed x i w = (t : ConnTimer) × (view w i t ≡ true) × (t.player_id ≡ x)

-- The player has no timer.
abbrev pub Untimed : ℤ → ConnTimerWheel → Type 0
Untimed x w = (j : ℕ) (t : ConnTimer) → view w j t ≡ true → t.player_id ≢ x

-- The wheel has its form, and its number of slots and its times are those that it had.
pub record Steady (len : ℕ) (w v : ConnTimerWheel) : Type 0 where
  pub well : WellFormed v
  pub slots : length v.timer_lists ≡ len
  pub same_index : v.curr_timer_index ≡ w.curr_timer_index
  pub same_time : v.last_check_time ≡ w.last_check_time

Timed-present : (x : ℤ) (i : ℕ) (w : ConnTimerWheel) → Timed x i w → present w i x ≡ true
Timed-present x i w (t, seen, is_x) = rw (← is_x) (present-view w i t seen)

module _ (known : ℤ → Bool) (len : ℕ) where
  module _ (i : ℕ) (w : ConnTimerWheel) (h : WellFormed w) (slots : length w.timer_lists ≡ len)
      (lt : i < len) where
    visited : Visited known i w (visit known i w).0 (visit known i w).1
    visited = visit-Visited known i w h (rw slots lt)

    visit-Untimed :
        (x : ℤ)
        → Untimed x w
        → Untimed x (visit known i w).0 × (contains x (visit known i w).1 ≡ false)
    visit-Untimed x gone = (
      λ j t seen. gone j t (ground (arith, seen, visited.views j t)),
      elim (Bool-cases (present w i x)) [
        | inr nobody ↦ ground (arith, visited.outs x, nobody)
        | inl here ↦ let (t, seen, is_x) = view_of_present w i x here in absurd (gone i t seen is_x)
      ],
    )

    visit_hit :
        (x : ℤ)
        → Timed x i w
        → Untimed x (visit known i w).0 × (contains x (visit known i w).1 ≡ known x)
    visit_hit x (u, u_seen, u_is_x) = (
      λ j t seen is_x.
          let was : view w j t ≡ true = ground (arith, seen, visited.views j t) in
          let same = view_unique w i j u t h u_seen was (u_is_x ∙ sym is_x) in
          absurd (ground (arith, seen, visited.views j t, same)),
      ground (arith, visited.outs x, Timed-present x i w (u, u_seen, u_is_x)),
    )

    visit_miss :
        (x : ℤ) (j : ℕ)
        → Timed x j w
        → (i == j) ≡ false
        → Timed x j (visit known i w).0 × (contains x (visit known i w).1 ≡ false)
    visit_miss x j (u, u_seen, u_is_x) apart = (
      (u, ground (arith, visited.views j u, apart, u_seen), u_is_x),
      elim (Bool-cases (present w i x)) [
        | inr nobody ↦ ground (arith, visited.outs x, nobody)
        | inl here ↦
            let (t, seen, is_x) = view_of_present w i x here in
            let same = view_unique w i j t u h seen u_seen (is_x ∙ sym u_is_x) in
            absurd (ground (arith, same, apart))
      ],
    )

    pub visit-Steady : Steady len w (visit known i w).0
    visit-Steady = record {
      well = visited.well;
      slots = visited.same_length ∙ slots;
      same_index = visited.same_index;
      same_time = visited.same_time;
    }

  pub sweep_slots-Steady :
      (n i : ℕ) (w : ConnTimerWheel)
      → WellFormed w
      → length w.timer_lists ≡ len
      → i < len
      → Steady len w (sweep_slots known len n i w).0
  unfolding sweep_slots
  sweep_slots-Steady zero i w h slots lt = record {
    well = h;
    slots = slots;
    same_index = refl;
    same_time = refl;
  }
  sweep_slots-Steady (suc n) i w h slots lt =
      let s = visit-Steady i w h slots lt in
      let r =
        sweep_slots-Steady n (ahead len i 1) (visit known i w).0 s.well s.slots
          (ground (arith, lt)) in
      record {
        well = r.well;
        slots = r.slots;
        same_index = r.same_index ∙ s.same_index;
        same_time = r.same_time ∙ s.same_time;
      }

  sweep_slots-Untimed :
      (x : ℤ) (n i : ℕ) (w : ConnTimerWheel)
      → WellFormed w
      → length w.timer_lists ≡ len
      → i < len
      → Untimed x w
      → Untimed x (sweep_slots known len n i w).0
        × (contains x (sweep_slots known len n i w).1 ≡ false)
  unfolding sweep_slots
  sweep_slots-Untimed x zero i w h slots lt gone = (gone, refl)
  sweep_slots-Untimed x (suc n) i w h slots lt gone =
      let (v, out) = visit known i w in
      let s = visit-Steady i w h slots lt in
      let (gone', silent) = visit-Untimed i w h slots lt x gone in
      let (still, quiet) =
        sweep_slots-Untimed x n (ahead len i 1) v s.well s.slots (ground (arith, lt)) gone' in
      (
        still,
        contains-append x out (sweep_slots known len n (ahead len i 1) v).1
            ∙ ground (arith, silent, quiet),
      )

  -- A timer of a slot that the sweep reaches: its player is logged out, if it is known.
  pub sweep_hit :
      (x : ℤ) (n i o : ℕ) (w : ConnTimerWheel)
      → WellFormed w
      → length w.timer_lists ≡ len
      → i < len
      → o < n
      → o < len
      → Timed x (ahead len i o) w
      → contains x (sweep_slots known len n i w).1 ≡ known x
  unfolding sweep_slots
  sweep_hit x zero i o w h slots lt less small timed = absurd (omega (arith, less))
  sweep_hit x (suc n) i zero w h slots lt less small timed =
      let (v, out) = visit known i w in
      let s = visit-Steady i w h slots lt in
      let here : ahead len i 0 ≡ i = ground (arith, lt) in
      let (gone, told) = visit_hit i w h slots lt x (rw (← here) timed) in
      let (still, quiet) =
        sweep_slots-Untimed x n (ahead len i 1) v s.well s.slots (ground (arith, lt)) gone in
      contains-append x out (sweep_slots known len n (ahead len i 1) v).1
      ∙ ground (arith, told, quiet)
  sweep_hit x (suc n) i (suc o) w h slots lt less small timed =
      let (v, out) = visit known i w in
      let s = visit-Steady i w h slots lt in
      let (timed', silent) =
        visit_miss i w h slots lt x (ahead len i (suc o)) timed (ground (arith, lt, small)) in
      let moved : ahead len i (suc o) ≡ ahead len (ahead len i 1) o = ground (arith, lt, small) in
      let told =
        sweep_hit x n (ahead len i 1) o v s.well s.slots (ground (arith, lt)) (omega (arith, less))
          (omega (arith, small)) (rw (← moved) timed') in
      contains-append x out (sweep_slots known len n (ahead len i 1) v).1
      ∙ ground (arith, silent, told)

  -- A timer of a slot that the sweep does not reach stays, and its player is not logged out.
  pub sweep_miss :
      (x : ℤ) (n i o : ℕ) (w : ConnTimerWheel)
      → WellFormed w
      → length w.timer_lists ≡ len
      → i < len
      → n ≤ o
      → o < len
      → Timed x (ahead len i o) w
      → Timed x (ahead len i o) (sweep_slots known len n i w).0
        × (contains x (sweep_slots known len n i w).1 ≡ false)
  unfolding sweep_slots
  sweep_miss x zero i o w h slots lt less small timed = (timed, refl)
  sweep_miss x (suc n) i o w h slots lt less small timed =
      let (v, out) = visit known i w in
      let s = visit-Steady i w h slots lt in
      let (timed', silent) =
        visit_miss i w h slots lt x (ahead len i o) timed (ground (arith, lt, small, less)) in
      let moved : ahead len i o ≡ ahead len (ahead len i 1) (o - 1) =
        ground (arith, lt, small, less) in
      let (still, quiet) =
        sweep_miss x n (ahead len i 1) (o - 1) v s.well s.slots (ground (arith, lt))
          (omega (arith, less)) (omega (arith, small)) (rw (← moved) timed') in
      (
        rw moved still,
        contains-append x out (sweep_slots known len n (ahead len i 1) v).1
            ∙ ground (arith, silent, quiet),
      )
