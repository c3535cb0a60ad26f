-- ===== src/ConnTimer/Rounds.antt =====
-- Rounds of the wheel: the operations that wait in the channel, and a turn.
use ih_server.Base.{
  ℕ, suc, ◌+◌, ◌-◌, ◌*◌, ◌<◌, ◌≤◌, ℤ, pos, ◌=?◌, =?-refl, List, [], ◌∷◌, false, length, ◌≡◌, refl,
  sym, ap, ◌∙◌, arith,
}
use ih_server.ConnTimer.{
  ConnTimerWheel, index_ahead, remove, insert_timer, ConnOp, insert_op, remove_op, do_op, do_ops,
}
use ih_server.ConnTimer.Nodes.{same_timer_iff}
use ih_server.ConnTimer.Inv.{remove-Removed, view-remove, remove-WellFormed}
use ih_server.ConnTimer.Insert.{Added, add_timer-Added}
use ih_server.ConnTimer.Sweep.{ahead}
use ih_server.ConnTimer.Ahead.{index_ahead_near, index_ahead_bound}
use ih_server.ConnTimer.Tick.{Turning, DueAt}

-- The player of an operation.
abbrev pub op_player : ConnOp → ℤ
op_player (insert_op y) = y
op_player (remove_op y) = y

-- No operation is about the player.
abbrev pub Silent : ℤ → List ConnOp → Type 0
Silent x [] = Unit
Silent x (op ∷ ops) = ((op_player op =? x) ≡ false) × Silent x ops

-- The index ahead goes by the index and the number of slots alone.
index_ahead-same :
    (v w : ConnTimerWheel) (n : ℤ)
    → v.curr_timer_index ≡ w.curr_timer_index
    → length v.timer_lists ≡ length w.timer_lists
    → index_ahead v n ≡ index_ahead w n
unfolding index_ahead
index_ahead-same v w n same_index same_length = rw (same_index, same_length) refl

module _ (heartbeat : ℕ) (positive : 0 < heartbeat) (small : heartbeat * 6 ≤ 2147483647) where
  abbrev len : ℕ
  len = heartbeat * 3

  remove-Turning :
      (y : ℤ) (w : ConnTimerWheel) → Turning heartbeat w → Turning heartbeat (remove y w).0
  remove-Turning y w h =
      let r = remove-Removed y w h.well in
      record {
        well = remove-WellFormed y w h.well;
        slots = ap length r.same_lists ∙ h.slots;
        index = rw r.same_index h.index;
        last = h.last;
        is_last = r.same_time ∙ h.is_last;
        last_bound = h.last_bound;
      }

  -- The slot that an insertion takes is the heartbeat interval ahead.
  insertion_slot :
      (w : ConnTimerWheel)
      → Turning heartbeat w
      → index_ahead w (pos heartbeat) ≡ ahead len (index_ahead w (pos 1)) (heartbeat - 1)
  insertion_slot w h =
      let counted : suc (heartbeat - 1) ≡ heartbeat = omega (arith, positive) in
      ap (λ n. index_ahead w (pos n)) (sym counted)
      ∙ index_ahead_near w len (heartbeat - 1) h.slots h.index (omega (arith, small))
          (omega (arith, positive))

  insert_timer-Added :
      (y : ℤ) (w : ConnTimerWheel)
      → Turning heartbeat w
      → let v = (remove y w).0 in
        Added y (index_ahead v (pos heartbeat)) v (insert_timer heartbeat y w)
  unfolding insert_timer
  insert_timer-Added y w h =
      let v = (remove y w).0 in
      let t = remove-Turning y w h in
      let lt =
        index_ahead_bound v len t.slots t.index (omega (arith, small)) (omega (arith, positive)) in
      add_timer-Added y (index_ahead v (pos heartbeat)) v t.well
        (ground (arith, (remove-Removed y w h.well).players y, =?-refl y))
        (rw (insertion_slot v t, t.slots) (ground (arith, lt, positive)))

  pub insert-Turning :
      (y : ℤ) (w : ConnTimerWheel)
      → Turning heartbeat w
      → Turning heartbeat (insert_timer heartbeat y w)
  insert-Turning y w h =
      let a = insert_timer-Added y w h in
      let t = remove-Turning y w h in
      record {
        well = a.well;
        slots = a.same_length ∙ t.slots;
        index = rw a.same_index t.index;
        last = t.last;
        is_last = a.same_time ∙ t.is_last;
        last_bound = t.last_bound;
      }

  -- A player that is inserted has the whole interval left.
  pub insert-DueAt :
      (x : ℤ) (w : ConnTimerWheel) (last : ℕ)
      → Turning heartbeat w
      → w.last_check_time ≡ pos last
      → 0 < last
      → last ≤ 2147483647
      → DueAt heartbeat x (last + heartbeat) (insert_timer heartbeat x w)
  insert-DueAt x w last h is_last started bound =
      let v = (remove x w).0 in
      let a = insert_timer-Added x w h in
      let r = remove-Removed x w h.well in
      let t = remove-Turning x w h in
      let i = index_ahead v (pos heartbeat) in
      let u = insert_timer heartbeat x w in
      let place : ahead len (index_ahead u (pos 1)) (heartbeat - 1) ≡ i =
        rw (index_ahead-same u v (pos 1) a.same_index a.same_length) (sym (insertion_slot v t)) in
      (
        last,
        heartbeat,
        refl,
        bound,
        record {
          turning = insert-Turning x w h;
          is_last = a.same_time ∙ r.same_time ∙ is_last;
          started = started;
          some_left = positive;
          within = omega arith;
          timed = rw place (
            a.timer,
            a.views i a.timer ∙ ground (arith, same_timer_iff a.timer a.timer),
            a.timer_of,
          );
        },
      )

  -- Operations on other players leave a timer where it is.
  remove-DueAt :
      (x y : ℤ) (due : ℕ) (w : ConnTimerWheel)
      → (y =? x) ≡ false
      → DueAt heartbeat x due w
      → DueAt heartbeat x due (remove y w).0
  remove-DueAt x y due w other (last, left, sum, bound, h) =
      let r = remove-Removed y w h.turning.well in
      let v = (remove y w).0 in
      let (t, seen, is_x) = h.timed in
      let i = ahead len (index_ahead w (pos 1)) (left - 1) in
      (
        last,
        left,
        sum,
        bound,
        record {
          turning = remove-Turning y w h.turning;
          is_last = r.same_time ∙ h.is_last;
          started = h.started;
          some_left = h.some_left;
          within = h.within;
          timed =
              rw (index_ahead-same v w (pos 1) r.same_index (ap length r.same_lists))
                (t, view-remove y w i t h.turning.well ∙ ground (arith, seen, is_x, other), is_x);
        },
      )

  insert_other-DueAt :
      (x y : ℤ) (due : ℕ) (w : ConnTimerWheel)
      → (y =? x) ≡ false
      → DueAt heartbeat x due w
      → DueAt heartbeat x due (insert_timer heartbeat y w)
  insert_other-DueAt x y due w other (since, rest, total, at_most, first) =
      let (last, left, sum, bound, h) =
        remove-DueAt x y due w other (since, rest, total, at_most, first) in
      let a = insert_timer-Added y w first.turning in
      let v = (remove y w).0 in
      let u = insert_timer heartbeat y w in
      let (t, seen, is_x) = h.timed in
      let i = ahead len (index_ahead v (pos 1)) (left - 1) in
      (
        last,
        left,
        sum,
        bound,
        record {
          turning = insert-Turning y w first.turning;
          is_last = a.same_time ∙ h.is_last;
          started = h.started;
          some_left = h.some_left;
          within = h.within;
          timed =
              rw (index_ahead-same u v (pos 1) a.same_index a.same_length)
                (t, a.views i t ∙ ground (arith, seen), is_x);
        },
      )

  pub do_ops-Turning :
      (ops : List ConnOp) (w : ConnTimerWheel)
      → Turning heartbeat w
      → Turning heartbeat (do_ops heartbeat ops w)
  unfolding do_ops do_op
  do_ops-Turning [] w h = h
  do_ops-Turning (insert_op y ∷ ops) w h =
      do_ops-Turning ops (insert_timer heartbeat y w) (insert-Turning y w h)
  do_ops-Turning (remove_op y ∷ ops) w h = do_ops-Turning ops (remove y w).0 (remove-Turning y w h)

  pub do_ops-DueAt :
      (x : ℤ) (due : ℕ) (ops : List ConnOp) (w : ConnTimerWheel)
      → Silent x ops
      → DueAt heartbeat x due w
      → DueAt heartbeat x due (do_ops heartbeat ops w)
  unfolding do_ops do_op
  do_ops-DueAt x due [] w silent d = d
  do_ops-DueAt x due (insert_op y ∷ ops) w (other, silent) d =
      do_ops-DueAt x due ops (insert_timer heartbeat y w) silent
        (insert_other-DueAt x y due w other d)
  do_ops-DueAt x due (remove_op y ∷ ops) w (other, silent) d =
      do_ops-DueAt x due ops (remove y w).0 silent (remove-DueAt x y due w other d)
