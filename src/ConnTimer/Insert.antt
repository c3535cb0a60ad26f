-- ===== src/ConnTimer/Insert.antt =====
-- An insertion puts one timer of the player at the slot ahead.
use ih_server.Base.{
  ℕ, ◌<◌, ℤ, ◌=?◌, =?-iff, =?-refl, List, [], ◌∷◌, ◌++◌, none, some, Option-cases, Bool-cases, inl,
  inr, true, false, ◌&&◌, ◌||◌, ◌==◌, length, length-set, length-append, set, lookup, lookup-insert,
  ◌≡◌, refl, sym, ap, ◌∙◌, arith,
}
use ih_server.ConnTimer.{
  ConnTimer, same_timer, list_add, ConnTimerPlayer, ConnTimerWheel, list_at, slot, list_of,
  add_timer,
}
use ih_server.ConnTimer.Nodes.{
  same_timer_iff, member, member-list_add, list_at-set, list_at-append, slot-set,
}
use ih_server.ConnTimer.Inv.{view, view-nil, view-at, WellFormed}

-- The wheel with a list made for a slot.
pub record Listed (i : ℕ) (w u : ConnTimerWheel) (l : ℕ) : Type 0 where
  pub well : WellFormed u
  pub there : slot u.timer_lists i ≡ some l
  pub same_players : u.players ≡ w.players
  pub same_index : u.curr_timer_index ≡ w.curr_timer_index
  pub same_time : u.last_check_time ≡ w.last_check_time
  pub same_length : length u.timer_lists ≡ length w.timer_lists
  pub same_view : (j : ℕ) (t : ConnTimer) → view u j t ≡ view w j t

list_at_end : (store : List (List ConnTimer)) → list_at store (length store) ≡ []
list_at_end [] = refl
list_at_end (ts ∷ store) = list_at_end store

list_of-Listed :
    (i : ℕ) (w : ConnTimerWheel)
    → WellFormed w
    → i < length w.timer_lists
    → Listed i w (list_of i w).0 (list_of i w).1
unfolding list_of
list_of-Listed i w h lt = elim (Option-cases (slot w.timer_lists i)) [
  | inr (l, at_i) ↦
      rw (list_of, at_i)
        (record {
          well = h;
          there = at_i;
          same_players = refl;
          same_index = refl;
          same_time = refl;
          same_length = refl;
          same_view = λ j t. refl;
        })
  | inl nil ↦
      let end = length w.store in
      let at_slot = λ (j : ℕ). slot-set w.timer_lists i j (some end) lt in
      let u = record w {
        timer_lists = set w.timer_lists i (some end);
        store = w.store ++ [] ∷ [];
      } in
      let longer = length-append w.store ([] ∷ []) in
      rw (list_of, nil)
        (record {
          well = record {
            made = λ j l at_j. ground (arith, at_slot j, at_j, h.made j l, longer);
            apart = λ j k l at_j at_k.
                ground
                  (arith, at_slot j, at_slot k, at_j, at_k, h.made j l, h.made k l, h.apart j k l);
            owned = λ j l t at_j is_in.
                let older = list_at-append w.store l in
                let was_in : member t (list_at w.store l) ≡ true =
                  sym (ap (member t) older) ∙ is_in in
                elim (Bool-cases (i == j)) [
                  | inr other ↦ h.owned j l t (ground (arith, at_slot j, at_j, other)) was_in
                  | inl same ↦
                      let is_end : l ≡ end = ground (arith, at_slot j, at_j, same) in
                      absurd (ground (arith, list_at_end w.store, is_end, was_in))
                ];
            named = λ y p here. ground (arith, h.named y p here, longer);
          };
          there = ground (arith, at_slot i);
          same_players = refl;
          same_index = refl;
          same_time = refl;
          same_length = length-set w.timer_lists i (some end);
          same_view = λ j t. elim (Bool-cases (i == j)) [
            | inl same ↦
                view-at u j end t (ground (arith, at_slot j, same))
                ∙ ap (member t) (list_at-append w.store end ∙ list_at_end w.store)
                ∙ sym (view-nil w j t (ground (arith, nil, same)))
            | inr other ↦ elim (Option-cases (slot w.timer_lists j)) [
              | inl empty ↦
                  view-nil u j t (ground (arith, at_slot j, other, empty))
                  ∙ sym (view-nil w j t empty)
              | inr (l, at_j) ↦
                  view-at u j l t (ground (arith, at_slot j, other, at_j))
                  ∙ ap (member t) (list_at-append w.store l)
                  ∙ sym (view-at w j l t at_j)
            ]
          ];
        })
]

-- What a new timer of the player `x` at slot `i` changes.
pub record Added (x : ℤ) (i : ℕ) (w v : ConnTimerWheel) : Type 0 where
  pub well : WellFormed v
  pub same_index : v.curr_timer_index ≡ w.curr_timer_index
  pub same_time : v.last_check_time ≡ w.last_check_time
  pub same_length : length v.timer_lists ≡ length w.timer_lists
  pub timer : ConnTimer
  pub timer_of : timer.player_id ≡ x
  pub views : (j : ℕ) (t : ConnTimer) → view v j t ≡ (view w j t || (i == j) && same_timer timer t)

pub add_timer-Added :
    (x : ℤ) (i : ℕ) (w : ConnTimerWheel)
    → WellFormed w
    → lookup x w.players ≡ none
    → i < length w.timer_lists
    → Added x i w (add_timer x i w)
unfolding add_timer
add_timer-Added x i w h new lt =
    let u = (list_of i w).0 in
    let l = (list_of i w).1 in
    let b = list_of-Listed i w h lt in
    let timer : ConnTimer = record { address = u.nodes; player_id = x } in
    let ts = list_add timer (list_at u.store l) in
    let p : ConnTimerPlayer = record { player_id = x; timer_list = l; timer = timer } in
    let here = b.well.made i l b.there in
    let stored = λ (k : ℕ). list_at-set u.store l k ts here in
    let added = λ (t : ConnTimer). member-list_add t timer (list_at u.store l) in
    let entry = λ (y : ℤ). lookup-insert x y p u.players in
    let kept = length-set u.store l ts in
    let nobody : lookup x u.players ≡ none = rw b.same_players new in
    let v = add_timer x i w in
    let older : (j k : ℕ) (t : ConnTimer)
        → slot u.timer_lists j ≡ some k
        → member t (list_at u.store k) ≡ true
        → lookup t.player_id v.players
          ≡ some (record { player_id = t.player_id; timer_list = k; timer = t }) =
      λ j k t at_j was_in.
        let own = b.well.owned j k t at_j was_in in
        entry t.player_id ∙ elim (Bool-cases (x =? t.player_id)) [
          | inl mine ↦ absurd (ground (arith, own, nobody, mine, =?-iff x t.player_id))
          | inr other ↦ ground (arith, other, own)
        ] in
    let at_l : list_at v.store l ≡ ts = ground (arith, stored l) in
    let at_other : (k : ℕ) → (l == k) ≡ false → list_at v.store k ≡ list_at u.store k =
      λ k other. ground (arith, stored k, other) in
    record {
      well = record {
        made = λ j k at_j. ground (arith, b.well.made j k at_j, kept);
        apart = b.well.apart;
        owned = λ j k t at_j is_in. elim (Bool-cases (l == k)) [
          | inr other ↦ older j k t at_j (sym (ap (member t) (at_other k other)) ∙ is_in)
          | inl same ↦
              let is_l : l ≡ k = ground (arith, same) in
              let found : member t ts ≡ true =
                sym (ap (member t) (sym (ap (list_at v.store) is_l) ∙ at_l)) ∙ is_in in
              elim (Bool-cases (member t (list_at u.store l))) [
                | inl was_in ↦ older j k t at_j (rw (← is_l) was_in)
                | inr was_out ↦
                    let is_new : timer ≡ t =
                      ground (arith, found, added t, was_out, same_timer_iff timer t) in
                    rw (← is_new, ← is_l) (entry x ∙ ground (arith, =?-refl x))
              ]
        ];
        named = λ y q at_y. elim (Bool-cases (x =? y)) [
          | inl mine ↦
              let is_p : p ≡ q = ground (arith, entry y, at_y, mine) in
              let is_x : x ≡ y = ground (arith, mine, =?-iff x y) in
              rw (← is_p) (is_x, is_x, omega (arith, here, kept))
          | inr other ↦ ground (arith, entry y, at_y, other, b.well.named y q, kept)
        ];
      };
      same_index = b.same_index;
      same_time = b.same_time;
      same_length = b.same_length;
      timer = timer;
      timer_of = refl;
      views = λ j t. elim (Bool-cases (i == j)) [
        | inl same ↦
            let at_j : slot u.timer_lists j ≡ some l = ground (arith, same, b.there) in
            view-at v j l t at_j
            ∙ ap (member t) at_l
            ∙ added t
            ∙ ground (arith, same, b.same_view j t, view-at u j l t at_j)
        | inr other ↦ elim (Option-cases (slot u.timer_lists j)) [
          | inl nil ↦
              view-nil v j t nil ∙ ground (arith, other, b.same_view j t, view-nil u j t nil)
          | inr (k, at_j) ↦
              view-at v j k t at_j
              ∙ ap (member t) (
                  at_other k (elim (Bool-cases (l == k)) [
                    | inr far ↦ far
                    | inl near ↦
                        absurd (ground (arith, b.well.apart i j l b.there, at_j, near, other))
                  ]))
              ∙ ground (arith, other, b.same_view j t, view-at u j k t at_j)
        ]
      ];
    }
