-- ===== src/ConnTimer/Logout.antt =====
-- The wheel over any number of rounds.
use ih_server.Base.{
  ℕ, zero, suc, ◌+◌, ◌*◌, ◌<◌, ◌≤◌, ℤ, pos, List, [], ◌∷◌, ◌++◌, none, inl, Bool, false, length,
  contains, replicate, length-replicate, contains-append, lookup, ◌≡◌, refl, ◌∙◌, arith,
}
use ih_server.ConnTimer.{ConnTimerWheel, ConnOp, slot, init, insert_timer, do_ops, tick, round}
use ih_server.ConnTimer.Tick.{Turning, DueAt}
use ih_server.ConnTimer.Silence.{tick-Turning, tick_due, tick_waits}
use ih_server.ConnTimer.Rounds.{Silent, insert-DueAt, do_ops-Turning, do_ops-DueAt}

-- What a round finds: the operations in the channel, the players that player_mgr has, and the time.
pub record Round : Type 0 where
  pub ops : List ConnOp
  pub known : ℤ → Bool
  pub now : ℕ

-- The rounds of Run, and the players that they log out.
unfoldable pub run_rounds : ℕ → List Round → ConnTimerWheel → ConnTimerWheel × List ℤ
run_rounds heartbeat [] w = (w, [])
run_rounds heartbeat (r ∷ rs) w =
    let (v, out) = round heartbeat r.ops r.known (pos r.now) w in
    let (u, more) = run_rounds heartbeat rs v in (u, out ++ more)

-- Times are int32s.
abbrev pub InTime : List Round → Type 0
InTime [] = Unit
InTime (r ∷ rs) = (r.now ≤ 2147483647) × InTime rs

-- Before the time `due`, no operation is about the player.
abbrev pub SilentUntil : ℤ → ℕ → List Round → Type 0
SilentUntil x due [] = Unit
SilentUntil x due (r ∷ rs) =
    Silent x r.ops × (r.now < due) × (r.now ≤ 2147483647) × SilentUntil x due rs

slot-replicate : (n i : ℕ) → slot (replicate n none) i ≡ none
slot-replicate zero i = refl
slot-replicate (suc n) zero = refl
slot-replicate (suc n) (suc i) = slot-replicate n i

init-Turning : (heartbeat : ℕ) → Turning heartbeat (init heartbeat)
unfolding init lookup
init-Turning heartbeat =
    let empty = slot-replicate (heartbeat * 3) in
    record {
      well = record {
        made = λ i l at_i. absurd (ground (arith, at_i, empty i));
        apart = λ i j l at_i at_j. absurd (ground (arith, at_i, empty i));
        owned = λ i l t at_i is_in. absurd (ground (arith, at_i, empty i));
        named = λ x p here. absurd (ground (arith, here));
      };
      slots = length-replicate (heartbeat * 3) none;
      index = inl refl;
      last = 0;
      is_last = refl;
      last_bound = omega arith;
    }

-- The number of players that is noted is part of no property of the wheel.
counted-Turning :
    (heartbeat : ℕ) (w : ConnTimerWheel) (n : ℤ)
    → Turning heartbeat w
    → Turning heartbeat (record w { last_players_num = n })
counted-Turning heartbeat w n h = record {
  well = record {
    made = h.well.made;
    apart = h.well.apart;
    owned = h.well.owned;
    named = h.well.named;
  };
  slots = h.slots;
  index = h.index;
  last = h.last;
  is_last = h.is_last;
  last_bound = h.last_bound;
}

counted-DueAt :
    (heartbeat : ℕ) (x : ℤ) (due : ℕ) (w : ConnTimerWheel) (n : ℤ)
    → DueAt heartbeat x due w
    → DueAt heartbeat x due (record w { last_players_num = n })
unfolding ih_server.ConnTimer.index_ahead
counted-DueAt heartbeat x due w n (last, left, sum, bound, h) = (
  last,
  left,
  sum,
  bound,
  record {
    turning = counted-Turning heartbeat w n h.turning;
    is_last = h.is_last;
    started = h.started;
    some_left = h.some_left;
    within = h.within;
    timed = h.timed;
  },
)

module _ (heartbeat : ℕ) (positive : 0 < heartbeat) (small : heartbeat * 6 ≤ 2147483647) where
  round-Turning :
      (r : Round) (w : ConnTimerWheel)
      → r.now ≤ 2147483647
      → Turning heartbeat w
      → Turning heartbeat (round heartbeat r.ops r.known (pos r.now) w).0
  unfolding round
  round-Turning r w in_int h =
      let v = (tick r.known (pos r.now) (do_ops heartbeat r.ops w)).0 in
      counted-Turning heartbeat v (pos (length v.players)) (
        tick-Turning heartbeat positive small r.known r.now _ in_int
          (do_ops-Turning heartbeat positive small r.ops w h))

  rounds-Turning :
      (rs : List Round) (w : ConnTimerWheel)
      → InTime rs
      → Turning heartbeat w
      → Turning heartbeat (run_rounds heartbeat rs w).0
  unfolding run_rounds
  rounds-Turning [] w times h = h
  rounds-Turning (r ∷ rs) w (in_int, times) h =
      rounds-Turning rs (round heartbeat r.ops r.known (pos r.now) w).0 times
        (round-Turning r w in_int h)

  -- With a positive heartbeat interval of which six are an int32: from Init on, whatever operations
  -- come and whenever the rounds are, the wheel keeps its form: no two slots share a list, a timer in a
  -- slot is that of its player, and the index is -1 or that of a slot.
  pub init_rounds-Turning :
      (rs : List Round) → InTime rs → Turning heartbeat (run_rounds heartbeat rs (init heartbeat)).0
  init_rounds-Turning rs times = rounds-Turning rs (init heartbeat) times (init-Turning heartbeat)

  round_due :
      (x : ℤ) (due : ℕ) (r : Round) (w : ConnTimerWheel)
      → Silent x r.ops
      → due ≤ r.now
      → r.now ≤ 2147483647
      → DueAt heartbeat x due w
      → contains x (round heartbeat r.ops r.known (pos r.now) w).1 ≡ r.known x
  unfolding round
  round_due x due r w silent late in_int d =
      let (last, left, sum, bound, h) =
        do_ops-DueAt heartbeat positive small x due r.ops w silent d in
      tick_due heartbeat positive small r.known x last left r.now (do_ops heartbeat r.ops w) h bound
        in_int (omega (arith, sum, late))

  round_early :
      (x : ℤ) (due : ℕ) (r : Round) (w : ConnTimerWheel)
      → Silent x r.ops
      → r.now < due
      → r.now ≤ 2147483647
      → DueAt heartbeat x due w
      → let (v, out) = round heartbeat r.ops r.known (pos r.now) w in
        (contains x out ≡ false) × DueAt heartbeat x due v
  unfolding round
  round_early x due r w silent early in_int d =
      let (last, left, sum, bound, h) =
        do_ops-DueAt heartbeat positive small x due r.ops w silent d in
      let (quiet, waits) =
        tick_waits heartbeat positive small r.known x last left r.now (do_ops heartbeat r.ops w) h
          bound in_int (omega (arith, sum, early)) in
      let v = (tick r.known (pos r.now) (do_ops heartbeat r.ops w)).0 in
      (quiet, counted-DueAt heartbeat x due v (pos (length v.players)) (rw (← sum) waits))

  rounds_early :
      (x : ℤ) (due : ℕ) (rs : List Round) (w : ConnTimerWheel)
      → SilentUntil x due rs
      → DueAt heartbeat x due w
      → let (v, out) = run_rounds heartbeat rs w in
        (contains x out ≡ false) × DueAt heartbeat x due v
  unfolding run_rounds
  rounds_early x due [] w silent d = (refl, d)
  rounds_early x due (r ∷ rs) w (silent, early, in_int, later) d =
      let (v, out) = round heartbeat r.ops r.known (pos r.now) w in
      let (quiet, d') = round_early x due r w silent early in_int d in
      let (still, last) = rounds_early x due rs v later d' in
      (contains-append x out (run_rounds heartbeat rs v).1 ∙ ground (arith, quiet, still), last)

  -- With a positive heartbeat interval of which six are an int32: a player that is inserted into a
  -- wheel of this form, whose last check was at the positive time `last`, and for which no operation
  -- follows, is not logged out by the rounds before the time `last + heartbeat`, whenever they are,
  -- and is logged out by the first round at that time or later if player_mgr has it then, and else
  -- not.
  pub logged_out_in_time :
      (x : ℤ) (w : ConnTimerWheel) (last : ℕ) (before : List Round) (r : Round)
      → Turning heartbeat w
      → w.last_check_time ≡ pos last
      → 0 < last
      → last ≤ 2147483647
      → SilentUntil x (last + heartbeat) before
      → Silent x r.ops
      → last + heartbeat ≤ r.now
      → r.now ≤ 2147483647
      → let (v, out) = run_rounds heartbeat before (insert_timer heartbeat x w) in
        (contains x out ≡ false)
        × (contains x (round heartbeat r.ops r.known (pos r.now) v).1 ≡ r.known x)
  logged_out_in_time x w last before r h is_last started bound silent silent_too late in_int =
      let d = insert-DueAt heartbeat positive small x w last h is_last started bound in
      let (quiet, d') =
        rounds_early x (last + heartbeat) before (insert_timer heartbeat x w) silent d in
      (quiet, round_due x (last + heartbeat) r _ silent_too late in_int d')
