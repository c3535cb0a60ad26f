-- ===== src/ConnTimer/Inv.antt =====
-- The wheel keeps one timer for each of its players, in one slot at most.
use ih_server.Base.{
  ℕ, ◌<◌, ℤ, ◌=?◌, =?-iff, none, some, Option-cases, Bool-cases, inl, inr, Bool, true, false, ◌&&◌,
  not, if◌then◌else◌, ◌==◌, length, length-set, set, lookup, lookup-delete, ◌≡◌, refl, ap, ◌∙◌,
  arith,
}
use ih_server.ConnTimer.{
  ConnTimer, list_remove, ConnTimerPlayer, ConnTimerWheel, list_at, slot, remove_player, remove,
}
use ih_server.ConnTimer.Nodes.{same_timer_iff, member, member-list_remove, list_at-set}

-- Whether the list of a slot has a node.
abbrev pub view : ConnTimerWheel → ℕ → ConnTimer → Bool
view w i t = elim (slot w.timer_lists i) [ none ↦ false | some l ↦ member t (list_at w.store l) ]

pub view-nil :
    (w : ConnTimerWheel) (i : ℕ) (t : ConnTimer) → slot w.timer_lists i ≡ none → view w i t ≡ false
view-nil w i t nil = rw (view, nil) refl

pub view-at :
    (w : ConnTimerWheel) (i l : ℕ) (t : ConnTimer)
    → slot w.timer_lists i ≡ some l
    → view w i t ≡ member t (list_at w.store l)
view-at w i l t at_i = rw (view, at_i) refl

-- The lists of slots and players were made; no two slots have one list; the timer of a slot is the one
-- of its player, whose list is the one of the slot.
pub record WellFormed (w : ConnTimerWheel) : Type 0 where
  pub made : (i l : ℕ) → slot w.timer_lists i ≡ some l → l < length w.store
  pub apart : (i j l : ℕ) → slot w.timer_lists i ≡ some l → slot w.timer_lists j ≡ some l → i ≡ j
  pub owned :
      (i l : ℕ) (t : ConnTimer)
      → slot w.timer_lists i ≡ some l
      → member t (list_at w.store l) ≡ true
      → lookup t.player_id w.players
        ≡ some (record { player_id = t.player_id; timer_list = l; timer = t })
  pub named :
      (x : ℤ) (p : ConnTimerPlayer)
      → lookup x w.players ≡ some p
      → (p.player_id ≡ x) × (p.timer.player_id ≡ x) × (p.timer_list < length w.store)

-- What the removal of a player leaves.
pub record Removed (x : ℤ) (w v : ConnTimerWheel) : Type 0 where
  pub same_lists : v.timer_lists ≡ w.timer_lists
  pub same_index : v.curr_timer_index ≡ w.curr_timer_index
  pub same_store : length v.store ≡ length w.store
  pub same_time : v.last_check_time ≡ w.last_check_time
  pub players : (y : ℤ) → lookup y v.players ≡ (if x =? y then none else lookup y w.players)
  pub timers :
      (i l : ℕ) (t : ConnTimer)
      → slot w.timer_lists i ≡ some l
      → member t (list_at v.store l) ≡ (member t (list_at w.store l) && not (x =? t.player_id))

same_player :
    (x y : ℤ) (p q : ConnTimerPlayer) (w : ConnTimerWheel)
    → lookup x w.players ≡ some p
    → (x =? y) ≡ true
    → lookup y w.players ≡ some q
    → p ≡ q
same_player x y p q w p_at same q_at = ground (arith, p_at, same, q_at, =?-iff x y)

pub remove-Removed : (x : ℤ) (w : ConnTimerWheel) → WellFormed w → Removed x w (remove x w).0
unfolding remove remove_player
remove-Removed x w h = elim (Option-cases (lookup x w.players)) [
  | inl none_at ↦
      rw (remove, none_at)
        (record {
          same_lists = refl;
          same_index = refl;
          same_store = refl;
          same_time = refl;
          players = λ y. ground (arith, none_at, =?-iff x y);
          timers = λ i l t at_i. ground (arith, none_at, h.owned i l t at_i, =?-iff x t.player_id);
        })
  | inr (p, here) ↦
      let (is_x, owner, in_store) = h.named x p here in
      let rest = list_remove p.timer (list_at w.store p.timer_list) in
      rw (remove, here)
        (record {
          same_lists = refl;
          same_index = refl;
          same_store = length-set w.store p.timer_list rest;
          same_time = refl;
          players = λ y. ground (arith, lookup-delete p.player_id y w.players, is_x);
          timers = λ i l t at_i.
              let stored = list_at-set w.store p.timer_list l rest in_store in
              let removed = member-list_remove t p.timer (list_at w.store p.timer_list) in
              elim (Bool-cases (p.timer_list == l)) [
                | inr elsewhere ↦
                    let kept : list_at (set w.store p.timer_list rest) l ≡ list_at w.store l =
                      ground (arith, stored, elsewhere) in
                    ap (member t) kept ∙ elim (Bool-cases (x =? t.player_id)) [
                      | inr other ↦ ground (arith, other)
                      | inl mine ↦ elim (Bool-cases (member t (list_at w.store l))) [
                        | inr is_out ↦ ground (arith, is_out)
                        | inl is_in ↦
                            let is_p =
                              same_player x t.player_id p _ w here mine
                                (h.owned i l t at_i is_in) in
                            let same : p.timer_list ≡ l =
                              ap (λ (q : ConnTimerPlayer). q.timer_list) is_p in
                            absurd (ground (arith, same, elsewhere))
                      ]
                    ]
                | inl there ↦
                    let same : p.timer_list ≡ l = ground (arith, there) in
                    let left : list_at (set w.store p.timer_list rest) l ≡ rest =
                      ground (arith, stored, there) in
                    ap (member t) left ∙ removed ∙ elim (Bool-cases (x =? t.player_id)) [
                      | inr other ↦ ground (
                        arith,
                        other,
                        same,
                        owner,
                        =?-iff x t.player_id,
                        same_timer_iff p.timer t,
                        =?-iff p.timer.player_id t.player_id,
                      )
                      | inl mine ↦ elim (Bool-cases (member t (list_at w.store l))) [
                        | inr is_out ↦ ground (arith, is_out, same)
                        | inl is_in ↦
                            let is_p =
                              same_player x t.player_id p _ w here mine
                                (h.owned i l t at_i is_in) in
                            let same_t : p.timer ≡ t = ap (λ (q : ConnTimerPlayer). q.timer) is_p in
                            ground (arith, same, mine, same_t, same_timer_iff p.timer t)
                      ]
                    ]
              ];
        })
]

-- What `remove` leaves of the timers of a slot.
pub view-remove :
    (x : ℤ) (w : ConnTimerWheel) (i : ℕ) (t : ConnTimer)
    → WellFormed w
    → view (remove x w).0 i t ≡ (view w i t && not (x =? t.player_id))
view-remove x w i t h =
    let r = remove-Removed x w h in
    elim (Option-cases (slot w.timer_lists i)) [
      | inl nil ↦ rw (view-nil w i t nil) (view-nil (remove x w).0 i t (rw r.same_lists nil))
      | inr (l, at_i) ↦
          rw (view-at w i l t at_i)
            (view-at (remove x w).0 i l t (rw r.same_lists at_i) ∙ r.timers i l t at_i)
    ]

pub remove-WellFormed : (x : ℤ) (w : ConnTimerWheel) → WellFormed w → WellFormed (remove x w).0
remove-WellFormed x w h =
    let r = remove-Removed x w h in
    let at_slot : (i l : ℕ)
        → slot (remove x w).0.timer_lists i ≡ some l
        → slot w.timer_lists i ≡ some l =
      λ i l at_i. rw (← r.same_lists) at_i in
    record {
      made = λ i l at_i. ground (arith, h.made i l (at_slot i l at_i), r.same_store);
      apart = λ i j l at_i at_j. h.apart i j l (at_slot i l at_i) (at_slot j l at_j);
      owned = λ i l t at_i is_in. ground (
        arith,
        r.timers i l t (at_slot i l at_i),
        is_in,
        h.owned i l t (at_slot i l at_i),
        r.players t.player_id,
      );
      named = λ y p here. ground (arith, r.players y, here, h.named y p, r.same_store);
    }
