-- ===== src/Player/SevenDays/Once.antt =====
-- src/hall_server/player_seven_days.go: a day's award is asked for once.
use ih_server.Base.{
  ℕ, zero, suc, ◌<◌, ℤ, pos, negsuc, ◌+₃₂◌, ◌-₃₂◌, wrap32, ◌+ℤ◌, ◌-ℤ◌, quot, ◌<?◌, ◌≤?◌, List, [],
  ◌∷◌, Option, Option-cases, Bool-cases, inl, inr, none, some, false, ◌≡◌, ◌⊎◌, refl, sym,
  get_elem?, set, length, get_elem?-set, arith,
}
use ih_server.Player.Env.{Env, Slice}
use ih_server.Player.State.{Player, Ret, success, failure, seven_days_awarded, send}
use ih_server.Player.Resource.Frame.{add_resources-OnlyWallet}
use ih_server.Player.SevenDays.{
  seven_days_secs, diff_secs, award_states, check_seven_days, index, mark_day, give_day, over, day,
  seven_days_award,
}

-- The day's own index, from the day's number.
back : (i : ℕ) → i < 100 → (pos i +₃₂ pos 1) -₃₂ pos 1 ≡ pos i
unfolding ◌+₃₂◌ ◌-₃₂◌ ◌+ℤ◌ ◌-ℤ◌ wrap32
back i h = ground arith

index_lt : (l : List ℤ) (i : ℕ) {s : ℤ} → get_elem? l i ≡ some s → i < length l
index_lt [] i h = ground arith
index_lt (x ∷ l) zero h = omega arith
index_lt (x ∷ l) (suc i) h = omega (arith, index_lt l i h)

set_states :
    (l : List ℤ) (i : ℕ) (v : ℤ)
    → award_states (set (award_states l) i v) ≡ set (award_states l) i v
set_states [] zero v = refl
set_states [] (suc i) v = refl
set_states (x ∷ l) zero v = refl
set_states (x ∷ l) (suc i) v = refl

-- The index of the day that is open, and its state.
record IsToday (e : Env) (p : Player) (d s : ℤ) : Type 0 where
  i : ℕ
  soon : (seven_days_secs ≤? diff_secs e p) ≡ false
  at : quot (diff_secs e p) 86400 ≡ pos i
  number : d ≡ pos i +₃₂ pos 1
  small : i < 100
  state : get_elem? (award_states p.seven_days.awards) i ≡ some s

quot_small : (x : ℤ) (i : ℕ) → (seven_days_secs ≤? x) ≡ false → quot x 86400 ≡ pos i → i < 100
unfolding quot
quot_small (pos a) i h k = ground arith
quot_small (negsuc a) i h k = ground arith

IsToday-index :
    (e : Env) (p : Player) (s x d : ℤ)
    → (seven_days_secs ≤? diff_secs e p) ≡ false
    → x ≡ quot (diff_secs e p) 86400
    → d ≡ x +₃₂ pos 1
    → index (award_states p.seven_days.awards) x ≡ some s
    → IsToday e p d s
IsToday-index e p s (pos i) d soon q n at = record {
  i = i;
  soon = soon;
  at = sym q;
  number = n;
  small = quot_small (diff_secs e p) i soon (sym q);
  state = at;
}
IsToday-index e p s (negsuc i) d soon q n at = absurd (ground arith)

check-IsToday :
    (e : Env) (p q : Player) (d s r : ℤ)
    → check_seven_days e false p ≡ some (q, day d s r)
    → IsToday e p d s
      × (q ≡ record p {
        seven_days = record { awards = award_states p.seven_days.awards; days = d };
      })
unfolding check_seven_days
check-IsToday e p q d s r h =
    let st = award_states p.seven_days.awards in
    elim (Bool-cases (seven_days_secs ≤? diff_secs e p)) [
      | inl late ↦ absurd (ground arith)
      | inr soon ↦ elim (Option-cases (index st (quot (diff_secs e p) 86400))) [
        | inl none_at ↦ absurd (ground arith)
        | inr (v, at) ↦ (
          IsToday-index e p s (quot (diff_secs e p) 86400) d soon refl (ground arith)
              (ground arith),
          ground arith,
        )
      ]
    ]

marked :
    (e : Env) (p p1 q : Player) (d s r : ℤ)
    → check_seven_days e false p ≡ some (p1, day d s r)
    → q.seven_days ≡ (mark_day d p1).seven_days
    → q.create_unix ≡ p.create_unix
    → seven_days_award e q
      ≡ some (record q { seven_days = record (q.seven_days) { days = d } }, seven_days_awarded)
unfolding seven_days_award check_seven_days mark_day
marked e p p1 q d s r h a c =
    let (t, p1_is) = check-IsToday e p p1 d s r h in
    let st = award_states p.seven_days.awards in
    let lt = index_lt st t.i t.state in
    let b = back t.i t.small in
    ground (
      arith,
      t.soon,
      t.at,
      t.number,
      b,
      p1_is,
      a,
      c,
      set_states p.seven_days.awards t.i (pos 1),
      get_elem?-set st t.i t.i (pos 1) lt,
    )

given_same :
    (e : Env) (d : ℤ) (o : Option Slice) (p : Player)
    → ((give_day e d o p).0.seven_days ≡ p.seven_days)
      × ((give_day e d o p).0.create_unix ≡ p.create_unix)
unfolding give_day send
given_same e d none p = (refl, refl)
given_same e d (some l) p = ground (arith, add_resources-OnlyWallet e l p)

-- A request that gives the award of the day, or that fails for want of a row of the day, marks the
-- day: the next request at that time is refused as awarded, and changes no more than the day's number.
pub seven_days_once :
    (e : Env) (p q : Player) (r : Ret)
    → seven_days_award e p ≡ some (q, r)
    → (r ≡ success) ⊎ (r ≡ failure)
    → (d : ℤ) × (seven_days_award e q
        ≡ some (record q { seven_days = record (q.seven_days) { days = d } }, seven_days_awarded))
unfolding seven_days_award mark_day
seven_days_once e p q r h ok = elim (Option-cases (check_seven_days e false p)) [
  | inl none_at ↦ absurd (ground arith)
  | inr ((p1, over), c) ↦ absurd (ground (arith, rw (c, seven_days_award) at h))
  | inr ((p1, day d s x), c) ↦ elim (Bool-cases (pos 0 <? s)) [
    | inl had ↦ absurd (ground (arith, rw (c, seven_days_award) at h))
    | inr new ↦
        let same = (check-IsToday e p p1 d s x c).1 in
        let end : some (give_day e d (e.seven_days_table d) (mark_day d p1)) ≡ some (q, r) =
          ground (arith, rw (c, seven_days_award) at h) in
        let g = given_same e d (e.seven_days_table d) (mark_day d p1) in
        (d, marked e p p1 q d s x c (ground (arith, g.0, end)) (ground (arith, g.1, end, same)))
  ]
]
