-- ===== src/ConnTimer/Expire.antt =====
-- What a visit to a slot logs out, and what it leaves.
use ih_server.Base.{
  ℕ, ℤ, ◌=?◌, =?-iff, List, [], ◌∷◌, Bool-cases, inl, inr, Bool, true, false, ◌&&◌, ◌||◌, not,
  contains, ◌≡◌, refl, ◌∙◌, arith,
}
use ih_server.ConnTimer.{ConnTimer, ConnTimerWheel, remove, expire}
use ih_server.ConnTimer.Nodes.{same_timer_iff, member}
use ih_server.ConnTimer.Inv.{view, WellFormed, remove-Removed, view-remove, remove-WellFormed}

-- Whether a list has a node of a player.
abbrev pub has_player : ℤ → List ConnTimer → Bool
has_player x [] = false
has_player x (t ∷ ts) = (t.player_id =? x) || has_player x ts

pub has_player-member :
    (t : ConnTimer) (ts : List ConnTimer) → member t ts ≡ true → has_player t.player_id ts ≡ true
has_player-member t [] h = h
has_player-member t (u ∷ ts) h =
    ground (arith, h, has_player-member t ts, same_timer_iff u t, =?-iff u.player_id t.player_id)

pub member_of_player :
    (x : ℤ) (ts : List ConnTimer)
    → has_player x ts ≡ true
    → (t : ConnTimer) × (member t ts ≡ true) × (t.player_id ≡ x)
member_of_player x [] h = absurd (ground (arith, h))
member_of_player x (u ∷ ts) h = elim (Bool-cases (u.player_id =? x)) [
  | inl here ↦ (u, ground (arith, same_timer_iff u u), ground (arith, here, =?-iff u.player_id x))
  | inr later ↦
      let (t, is_in, is_x) = member_of_player x ts (ground (arith, h, later)) in
      (t, ground (arith, is_in), is_x)
]

-- What the loop over some nodes changes.
pub record Expired (known : ℤ → Bool) (ts : List ConnTimer) (w v : ConnTimerWheel) (out : List ℤ)
    : Type 0 where
  pub well : WellFormed v
  pub same_lists : v.timer_lists ≡ w.timer_lists
  pub same_index : v.curr_timer_index ≡ w.curr_timer_index
  pub same_time : v.last_check_time ≡ w.last_check_time
  pub views :
      (j : ℕ) (t : ConnTimer)
      → view v j t ≡ (view w j t && not (known t.player_id && has_player t.player_id ts))
  pub outs : (x : ℤ) → contains x out ≡ (known x && has_player x ts)

pub expire-Expired :
    (known : ℤ → Bool) (ts : List ConnTimer) (w : ConnTimerWheel)
    → WellFormed w
    → Expired known ts w (expire known ts w).0 (expire known ts w).1
unfolding expire
expire-Expired known [] w h = record {
  well = h;
  same_lists = refl;
  same_index = refl;
  same_time = refl;
  views = λ j t. ground arith;
  outs = λ x. ground arith;
}
expire-Expired known (u ∷ ts) w h = elim (Bool-cases (known u.player_id)) [
  | inl yes_known ↦
      let v = (remove u.player_id w).0 in
      let r = remove-Removed u.player_id w h in
      let e = expire-Expired known ts v (remove-WellFormed u.player_id w h) in
      rw (expire, yes_known)
        (record {
          well = e.well;
          same_lists = e.same_lists ∙ r.same_lists;
          same_index = e.same_index ∙ r.same_index;
          same_time = e.same_time ∙ r.same_time;
          views = λ j t.
              e.views j t
              ∙ ground (
                arith,
                view-remove u.player_id w j t h,
                yes_known,
                =?-iff u.player_id t.player_id,
              );
          outs = λ x. ground (arith, e.outs x, yes_known, =?-iff u.player_id x);
        })
  | inr unknown ↦
      let e = expire-Expired known ts w h in
      rw (expire, unknown)
        (record {
          well = e.well;
          same_lists = e.same_lists;
          same_index = e.same_index;
          same_time = e.same_time;
          views = λ j t. e.views j t ∙ ground (arith, unknown, =?-iff u.player_id t.player_id);
          outs = λ x. e.outs x ∙ ground (arith, unknown, =?-iff u.player_id x);
        })
]
