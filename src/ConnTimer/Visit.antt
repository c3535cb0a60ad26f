-- ===== src/ConnTimer/Visit.antt =====
-- A visit to a slot empties it, and leaves every other slot.
use ih_server.Base.{
  ℕ, ◌<◌, ℤ, List, none, some, Option-cases, Bool-cases, inl, inr, Bool, true, false, ◌&&◌, not,
  ◌==◌, length, length-set, contains, set, lookup, ◌≡◌, refl, sym, ap, ◌∙◌, arith,
}
use mathlib.Core.Option.{some-injective}
use ih_server.ConnTimer.{ConnTimer, ConnTimerPlayer, ConnTimerWheel, list_at, slot, expire, visit}
use ih_server.ConnTimer.Nodes.{member, slot-set}
use ih_server.ConnTimer.Inv.{view, view-nil, view-at, WellFormed}
use ih_server.ConnTimer.Expire.{has_player, has_player-member, member_of_player, expire-Expired}

-- Whether a slot has a timer of a player.
abbrev pub present : ConnTimerWheel → ℕ → ℤ → Bool
present w i x = elim (slot w.timer_lists i) [
  | none ↦ false
  | some l ↦ has_player x (list_at w.store l)
]

-- A timer in the view of a slot is in its list.
viewed :
    (w : ConnTimerWheel) (i : ℕ) (t : ConnTimer)
    → view w i t ≡ true
    → (l : ℕ) × (slot w.timer_lists i ≡ some l) × (member t (list_at w.store l) ≡ true)
viewed w i t h = elim (Option-cases (slot w.timer_lists i)) [
  | inl nil ↦ absurd (ground (arith, h, view-nil w i t nil))
  | inr (l, at_i) ↦ (l, at_i, sym (view-at w i l t at_i) ∙ h)
]

-- A player has timers in one slot only.
pub view_unique :
    (w : ConnTimerWheel) (i j : ℕ) (t u : ConnTimer)
    → WellFormed w
    → view w i t ≡ true
    → view w j u ≡ true
    → t.player_id ≡ u.player_id
    → i ≡ j
view_unique w i j t u h t_in u_in same =
    let (l, at_i, t_at) = viewed w i t t_in in
    let (k, at_j, u_at) = viewed w j u u_in in
    let named = ap (λ y. lookup y w.players) same in
    let is_p =
      some-injective _ _ (sym (h.owned i l t at_i t_at) ∙ named ∙ h.owned j k u at_j u_at) in
    let same_list : l ≡ k = ap (λ (p : ConnTimerPlayer). p.timer_list) is_p in
    h.apart i j l at_i (rw same_list at_j)

pub present-view :
    (w : ConnTimerWheel) (i : ℕ) (t : ConnTimer)
    → view w i t ≡ true
    → present w i t.player_id ≡ true
present-view w i t h =
    let (l, at_i, t_at) = viewed w i t h in
    rw (present, at_i) (has_player-member t (list_at w.store l) t_at)

pub view_of_present :
    (w : ConnTimerWheel) (i : ℕ) (x : ℤ)
    → present w i x ≡ true
    → (t : ConnTimer) × (view w i t ≡ true) × (t.player_id ≡ x)
view_of_present w i x h = elim (Option-cases (slot w.timer_lists i)) [
  | inl nil ↦ absurd (ground (arith, h, nil))
  | inr (l, at_i) ↦
      let (t, is_in, is_x) = member_of_player x (list_at w.store l) (ground (arith, h, at_i)) in
      (t, view-at w i l t at_i ∙ is_in, is_x)
]

-- What a visit to slot `i` changes.
pub record Visited (known : ℤ → Bool) (i : ℕ) (w v : ConnTimerWheel) (out : List ℤ) : Type 0 where
  pub well : WellFormed v
  pub same_index : v.curr_timer_index ≡ w.curr_timer_index
  pub same_time : v.last_check_time ≡ w.last_check_time
  pub same_length : length v.timer_lists ≡ length w.timer_lists
  pub views : (j : ℕ) (t : ConnTimer) → view v j t ≡ (not (i == j) && view w j t)
  pub outs : (x : ℤ) → contains x out ≡ (known x && present w i x)

-- Removals for the nodes of slot `i` leave the timers of the other slots.
expired_elsewhere :
    (known : ℤ → Bool) (i l j : ℕ) (t : ConnTimer) (w : ConnTimerWheel)
    → WellFormed w
    → slot w.timer_lists i ≡ some l
    → (i == j) ≡ false
    → (view w j t && not (known t.player_id && has_player t.player_id (list_at w.store l)))
      ≡ view w j t
expired_elsewhere known i l j t w h at_i apart = elim (Bool-cases (view w j t)) [
  | inr unseen ↦ ground (arith, unseen)
  | inl seen ↦ elim (Bool-cases (has_player t.player_id (list_at w.store l))) [
    | inr nobody ↦ ground (arith, seen, nobody)
    | inl here ↦
        let (u, u_at, is_x) = member_of_player t.player_id (list_at w.store l) here in
        let same = view_unique w i j u t h (view-at w i l u at_i ∙ u_at) seen is_x in
        absurd (ground (arith, same, apart))
  ]
]

-- A wheel one of whose slots is emptied.
emptied-WellFormed :
    (i : ℕ) (w : ConnTimerWheel)
    → WellFormed w
    → i < length w.timer_lists
    → WellFormed (record w { timer_lists = set w.timer_lists i none })
emptied-WellFormed i w h lt =
    let at_slot = λ (j : ℕ). slot-set w.timer_lists i j none lt in
    let was : (j l : ℕ)
        → slot (set w.timer_lists i none) j ≡ some l
        → slot w.timer_lists j ≡ some l =
      λ j l at_j. ground (arith, at_slot j, at_j) in
    record {
      made = λ j l at_j. h.made j l (was j l at_j);
      apart = λ j k l at_j at_k. h.apart j k l (was j l at_j) (was k l at_k);
      owned = λ j l t at_j is_in. h.owned j l t (was j l at_j) is_in;
      named = h.named;
    }

emptied_view :
    (i j : ℕ) (t : ConnTimer) (w : ConnTimerWheel)
    → i < length w.timer_lists
    → view (record w { timer_lists = set w.timer_lists i none }) j t ≡ (not (i == j) && view w j t)
emptied_view i j t w lt =
    let v = record w { timer_lists = set w.timer_lists i none } in
    let at_j = slot-set w.timer_lists i j none lt in
    elim (Bool-cases (i == j)) [
      | inl same ↦ ground (arith, same, view-nil v j t (ground (arith, at_j, same)))
      | inr other ↦ elim (Option-cases (slot w.timer_lists j)) [
        | inl nil ↦
            ground
              (arith, other, view-nil w j t nil, view-nil v j t (ground (arith, at_j, other, nil)))
        | inr (l, was) ↦
            ground (
              arith,
              other,
              view-at w j l t was,
              view-at v j l t (ground (arith, at_j, other, was)),
            )
      ]
    ]

pub visit-Visited :
    (known : ℤ → Bool) (i : ℕ) (w : ConnTimerWheel)
    → WellFormed w
    → i < length w.timer_lists
    → Visited known i w (visit known i w).0 (visit known i w).1
unfolding visit
visit-Visited known i w h lt = elim (Option-cases (slot w.timer_lists i)) [
  | inl nil ↦
      rw (visit, nil)
        (record {
          well = h;
          same_index = refl;
          same_time = refl;
          same_length = refl;
          views = λ j t. ground (arith, view-nil w i t nil);
          outs = λ x. ground (arith, nil);
        })
  | inr (l, at_i) ↦
      let e = expire-Expired known (list_at w.store l) w h in
      let v = (expire known (list_at w.store l) w).0 in
      let in_range : i < length v.timer_lists = rw e.same_lists lt in
      rw (visit, at_i)
        (record {
          well = emptied-WellFormed i v e.well in_range;
          same_index = e.same_index;
          same_time = e.same_time;
          same_length = length-set v.timer_lists i none ∙ ap length e.same_lists;
          views = λ j t. emptied_view i j t v in_range ∙ elim (Bool-cases (i == j)) [
            | inl same ↦ ground (arith, same)
            | inr other ↦
                ap (λ b. not (i == j) && b)
                  (e.views j t ∙ expired_elsewhere known i l j t w h at_i other)
          ];
          outs = λ x. e.outs x ∙ ground (arith, at_i);
        })
]
