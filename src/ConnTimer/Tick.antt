-- ===== src/ConnTimer/Tick.antt =====
-- One turn of the wheel: what it needs and keeps, and when a player that waits is logged out.
use ih_server.Base.{
  ℕ, suc, ◌+◌, ◌-◌, ◌*◌, ◌<◌, ◌≤◌, ℤ, pos, ◌-₃₂◌, ◌-ℤ◌, wrap32, ◌<?◌, [], inr, Bool, true, false,
  length, ◌≡◌, refl, arith,
}
use ih_server.ConnTimer.{ConnTimerWheel, index_ahead, start_time, turn, tick}
use ih_server.ConnTimer.Inv.{WellFormed}
use ih_server.ConnTimer.Sweep.{ahead, sweep_slots, Timed, sweep_slots-Steady}
use ih_server.ConnTimer.Ahead.{IsIndex, Turn, sweep-sweep_slots, index_ahead_bound, index_from}

-- A wheel of three times the heartbeat interval that works: its lists are in order, its index is -1 or
-- in range, and it was last turned at a time that is not negative.
pub record Turning (heartbeat : ℕ) (w : ConnTimerWheel) : Type 0 where
  pub well : WellFormed w
  pub slots : length w.timer_lists ≡ heartbeat * 3
  pub index : IsIndex (heartbeat * 3) w.curr_timer_index
  pub last : ℕ
  pub is_last : w.last_check_time ≡ pos last
  pub last_bound : last ≤ 2147483647

-- The player has a timer that comes up `left` seconds after the time `last` of the last turn.
pub record Waiting (heartbeat : ℕ) (x : ℤ) (last left : ℕ) (w : ConnTimerWheel) : Type 0 where
  pub turning : Turning heartbeat w
  pub is_last : w.last_check_time ≡ pos last
  pub started : 0 < last
  pub some_left : 0 < left
  pub within : left ≤ heartbeat
  pub timed : Timed x (ahead (heartbeat * 3) (index_ahead w (pos 1)) (left - 1)) w

-- The player has a timer that comes up at the time `due`.
abbrev pub DueAt : ℕ → ℤ → ℕ → ConnTimerWheel → Type 0
DueAt heartbeat x due w =
    (last left : ℕ) × (last + left ≡ due) × (last ≤ 2147483647) × Waiting heartbeat x last left w

module _ (heartbeat : ℕ) (positive : 0 < heartbeat) (small : heartbeat * 6 ≤ 2147483647) where
  abbrev len : ℕ
  len = heartbeat * 3

  module _ (known : ℤ → Bool) (w : ConnTimerWheel) (last now : ℕ)
      (is_last : w.last_check_time ≡ pos last) (bound : last ≤ 2147483647)
      (in_int : now ≤ 2147483647) where
    elapsed : last ≤ now → pos now -₃₂ w.last_check_time ≡ pos (now - last)
    unfolding ◌-₃₂◌ ◌-ℤ◌ wrap32
    elapsed le = rw is_last (ground (arith, le, bound, in_int))

    not_elapsed : now ≤ last → (pos 0 <? pos now -₃₂ w.last_check_time) ≡ false
    unfolding ◌-₃₂◌ ◌-ℤ◌ wrap32
    not_elapsed le = rw is_last (ground (arith, le, bound, in_int))

    going : 0 < last → start_time (pos now) w ≡ w
    unfolding start_time
    going started = ground (arith, is_last, started)

    turn_idle : now ≤ last → turn known (pos now) w ≡ (w, [])
    unfolding turn
    turn_idle le = rw (turn, not_elapsed le) refl

    pub tick_idle : 0 < last → now ≤ last → tick known (pos now) w ≡ (w, [])
    unfolding tick
    tick_idle started le = rw (tick, going started) (turn_idle le)

    pub tick_turns :
        (n : ℕ)
        → Turning heartbeat w
        → 0 < last
        → last < now
        → Turn len (now - last) w n
        → let (u, out) = sweep_slots known len n (index_ahead w (pos 1)) w in
          tick known (pos now) w ≡ (
            record u {
              curr_timer_index = pos (ahead len (index_ahead w (pos 1)) (n - 1));
              last_check_time = pos now;
            },
            out,
          )
    unfolding tick turn
    tick_turns n h started lt t =
        let secs = elapsed (omega (arith, lt)) in
        let due : (pos 0 <? pos (now - last)) ≡ true = ground (arith, lt) in
        let looped =
          sweep-sweep_slots known len len (n - 1) (index_ahead w (pos 1)) w h.well h.slots
            (omega (arith, small))
            (index_ahead_bound w len h.slots h.index (omega (arith, small))
              (omega (arith, positive)))
            (omega (arith, t.some_slots, t.all_slots)) (omega (arith, t.some_slots, t.all_slots)) in
        let counted : suc (n - 1) ≡ n = omega (arith, t.some_slots) in
        rw (tick, going started, turn, secs, due, h.slots, t.until, looped, counted) refl

  pub tick_first :
      (known : ℤ → Bool) (w : ConnTimerWheel) (now : ℕ)
      → w.last_check_time ≡ pos 0
      → now ≤ 2147483647
      → tick known (pos now) w ≡ (record w { last_check_time = pos now }, [])
  unfolding tick start_time
  tick_first known w now start in_int =
      let same : start_time (pos now) w ≡ record w { last_check_time = pos now } =
        ground (arith, start) in
      let begun = record w { last_check_time = pos now } in
      rw (tick, same) (turn_idle known begun now now refl in_int in_int (omega arith))

  -- The wheel after a turn over `n` slots.
  abbrev pub turned : ℕ → ℕ → ConnTimerWheel → ConnTimerWheel → ConnTimerWheel
  turned n now w u = record u {
    curr_timer_index = pos (ahead len (index_ahead w (pos 1)) (n - 1));
    last_check_time = pos now;
  }

  module _ (known : ℤ → Bool) (w : ConnTimerWheel) (h : Turning heartbeat w) (now n : ℕ)
      (in_int : now ≤ 2147483647) (some_slots : 0 < n) (all_slots : n ≤ len) where
    pub first_bound : index_ahead w (pos 1) < len
    first_bound =
        index_ahead_bound w len h.slots h.index (omega (arith, small)) (omega (arith, positive))

    pub turned-Turning :
        Turning heartbeat (turned n now w (sweep_slots known len n (index_ahead w (pos 1)) w).0)
    turned-Turning =
        let s =
          sweep_slots-Steady known len n (index_ahead w (pos 1)) w h.well h.slots first_bound in
        record {
          well = record {
            made = s.well.made;
            apart = s.well.apart;
            owned = s.well.owned;
            named = s.well.named;
          };
          slots = s.slots;
          index = inr (
            ahead len (index_ahead w (pos 1)) (n - 1),
            refl,
            ground (arith, first_bound, all_slots, some_slots),
          );
          last = now;
          is_last = refl;
          last_bound = in_int;
        }

    pub turned_first :
        index_ahead (turned n now w (sweep_slots known len n (index_ahead w (pos 1)) w).0) (pos 1)
        ≡ ahead len (ahead len (index_ahead w (pos 1)) (n - 1)) 1
    turned_first =
        index_from _ len (ahead len (index_ahead w (pos 1)) (n - 1)) (turned-Turning).slots
          (omega (arith, small)) refl (ground (arith, first_bound, all_slots, some_slots))
