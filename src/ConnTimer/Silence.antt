-- ===== src/ConnTimer/Silence.antt =====
-- A player whose client is silent for the heartbeat interval is logged out then, and not before.
use ih_server.Base.{
  ℕ, ◌+◌, ◌-◌, ◌*◌, ◌<◌, ◌≤◌, ℤ, pos, Bool-cases, inl, inr, Bool, false, ◌==◌, leb, contains, ◌≡◌,
  refl, ap, arith,
}
use ih_server.ConnTimer.{ConnTimerWheel, index_ahead, tick}
use ih_server.ConnTimer.Sweep.{ahead, sweep_slots, sweep_hit, sweep_miss}
use ih_server.ConnTimer.Ahead.{Turn, target-Turn}
use ih_server.ConnTimer.Tick.{
  Turning, Waiting, DueAt, tick_idle, tick_first, tick_turns, turned, turned-Turning, turned_first,
  first_bound,
}

ahead-ahead :
    (len i a b : ℕ) → i < len → a + b < len → ahead len (ahead len i a) b ≡ ahead len i (a + b)
ahead-ahead len i a b lt in_len = ground (arith, lt, in_len)

module _ (heartbeat : ℕ) (positive : 0 < heartbeat) (small : heartbeat * 6 ≤ 2147483647) where
  abbrev len : ℕ
  len = heartbeat * 3

  slots_to_turn :
      (w : ConnTimerWheel) (secs : ℕ) → Turning heartbeat w → 0 < secs → (n : ℕ) × Turn len secs w n
  slots_to_turn w secs h some_secs =
      target-Turn w len secs h.slots h.index (omega (arith, small)) (omega (arith, positive))
        some_secs

  -- A timer with no more seconds left than have passed is in a slot that has come.
  reached :
      {w : ConnTimerWheel} (n secs left : ℕ)
      → Turn len secs w n
      → left ≤ secs
      → 0 < left
      → left ≤ heartbeat
      → left - 1 < n
  reached n secs left t le some_left within = elim (Bool-cases (leb len secs)) [
    | inl long ↦ omega (arith, t.long (ground (arith, long)), within, positive, some_left)
    | inr soon ↦ omega (arith, t.short (ground (arith, soon)), le, some_left)
  ]

  pub tick-Turning :
      (known : ℤ → Bool) (now : ℕ) (w : ConnTimerWheel)
      → now ≤ 2147483647
      → Turning heartbeat w
      → Turning heartbeat (tick known (pos now) w).0
  tick-Turning known now w in_int h = elim (Bool-cases (h.last == 0)) [
    | inl at_first ↦
        rw
          (tick_first heartbeat positive small known w now (ground (arith, h.is_last, at_first))
            in_int)
          (record {
            well = record {
              made = h.well.made;
              apart = h.well.apart;
              owned = h.well.owned;
              named = h.well.named;
            };
            slots = h.slots;
            index = h.index;
            last = now;
            is_last = refl;
            last_bound = in_int;
          })
    | inr begun ↦ elim (Bool-cases (leb now h.last)) [
      | inl early ↦
          rw
            (tick_idle heartbeat positive small known w h.last now h.is_last h.last_bound in_int
              (ground (arith, begun)) (ground (arith, early)))
            h
      | inr later ↦
          let (n, t) = slots_to_turn w (now - h.last) h (ground (arith, later)) in
          rw
            (tick_turns heartbeat positive small known w h.last now h.is_last h.last_bound in_int n
              h (ground (arith, begun)) (ground (arith, later)) t)
            (turned-Turning heartbeat positive small known w h now n in_int t.some_slots
              t.all_slots)
    ]
  ]

  -- A turn of fewer seconds than are left.
  turned-Waiting :
      (known : ℤ → Bool) (x : ℤ) (last left now : ℕ) (w : ConnTimerWheel)
      → Waiting heartbeat x last left w
      → now ≤ 2147483647
      → last < now
      → now < last + left
      → let (u, out) = sweep_slots known len (now - last) (index_ahead w (pos 1)) w in
        (contains x out ≡ false)
        × Waiting heartbeat x now
            (last + left - now)
            (turned heartbeat positive small (now - last) now w u)
  turned-Waiting known x last left now w h in_int later early =
      let n = now - last in
      let first = index_ahead w (pos 1) in
      let some_slots : 0 < n = omega (arith, later) in
      let all_slots : n ≤ len = omega (arith, early, h.within) in
      let lt =
        first_bound heartbeat positive small known w h.turning now n in_int some_slots all_slots in
      let next =
        turned_first heartbeat positive small known w h.turning now n in_int some_slots all_slots in
      let (timed, quiet) =
        sweep_miss known len x n first (left - 1) w h.turning.well h.turning.slots lt
          (omega (arith, early, later)) (omega (arith, h.within, positive)) h.timed in
      let moved : ahead len (ahead len (ahead len first (n - 1)) 1) (last + left - now - 1)
          ≡ ahead len first (left - 1) =
        rw
          (
            ahead-ahead len first (n - 1) 1 lt (omega (arith, early, later, h.within)),
            ahead-ahead len first (n - 1 + 1) (last + left - now - 1) lt
                (omega (arith, early, later, h.within, positive)),
          )
          (ap (ahead len first) (omega (arith, early, later))) in
      (
        quiet,
        record {
          turning =
              turned-Turning heartbeat positive small known w h.turning now n in_int some_slots
                all_slots;
          is_last = refl;
          started = omega (arith, later);
          some_left = omega (arith, early);
          within = omega (arith, later, h.within);
          timed = rw (next, moved) timed;
        },
      )

  module _ (known : ℤ → Bool) (x : ℤ) (last left now : ℕ) (w : ConnTimerWheel)
      (h : Waiting heartbeat x last left w) (bound : last ≤ 2147483647)
      (in_int : now ≤ 2147483647) where
    -- The time has come: the player is logged out, if it is known.
    pub tick_due : last + left ≤ now → contains x (tick known (pos now) w).1 ≡ known x
    tick_due due =
        let (n, t) = slots_to_turn w (now - last) h.turning (omega (arith, due, h.some_left)) in
        let first =
          first_bound heartbeat positive small known w h.turning now n in_int t.some_slots
            t.all_slots in
        rw
          (tick_turns heartbeat positive small known w last now h.is_last bound in_int n h.turning
            h.started (omega (arith, due, h.some_left)) t)
          (sweep_hit known len x n (index_ahead w (pos 1)) (left - 1) w h.turning.well
            h.turning.slots first
            (reached n (now - last) left t (omega (arith, due)) h.some_left h.within)
            (omega (arith, h.within, positive)) h.timed)

    -- The time has not come: the player is not logged out, and waits for the same time.
    pub tick_waits :
        now < last + left
        → (contains x (tick known (pos now) w).1 ≡ false)
          × DueAt heartbeat x (last + left) (tick known (pos now) w).0
    tick_waits early = elim (Bool-cases (leb now last)) [
      | inl idle ↦
          rw
            (tick_idle heartbeat positive small known w last now h.is_last bound in_int h.started
              (ground (arith, idle)))
            (refl, (last, left, refl, bound, h))
      | inr later ↦
          let (n, t) = slots_to_turn w (now - last) h.turning (ground (arith, later)) in
          let same : n ≡ now - last = t.short (omega (arith, early, h.within, positive)) in
          let (quiet, waits) =
            turned-Waiting known x last left now w h in_int (ground (arith, later)) early in
          rw
            (
              tick_turns heartbeat positive small known w last now h.is_last bound in_int n
                  h.turning h.started (ground (arith, later)) t,
              same,
            )
            (quiet, (now, last + left - now, omega (arith, early), in_int, waits))
    ]
