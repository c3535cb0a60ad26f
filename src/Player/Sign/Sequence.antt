-- ===== src/Player/Sign/Sequence.antt =====
-- The daily sign: one sign a day, awards in sequence and never beyond the signs.
use ih_server.Base.{
  ℕ, ◌+◌, ◌<◌, ℤ, pos, ◌+₃₂◌, ◌+ℤ◌, ◌≤ℤ◌, ◌<ℤ◌, =?-iff, wrap32-eq, max_int32, +ℤ_parts,
  parts_disjoint, List, [], ◌∷◌, inl, inr, ◌≡◌, ◌≢◌, ◌⊎◌, sym, refl, ap, ◌∙◌, ◌≤◌, length, arith,
}
use ih_server.Player.Env.{Env}
use ih_server.Player.State.{Player, Ret, success, send}
use ih_server.Player.Sign.{sign_at, check_signed, signed, unchanged, get_sign_data, sign_award}
use ih_server.Player.Sign.Taken.{Refused, sign_award-Taken, Given, Payable, reward_paid}

-- sign_award gives the award that is next, if it is earned by a sign and listed in the table, and adds
-- its reward in full; and it refuses and changes nothing where the award is not above the last one, not
-- the next (its number wraps included), not earned or not listed. The reward has positive amounts of
-- gold, diamonds, experience or items of the table that are neither avatars nor honor; the resources but
-- experience are not negative before, and with the reward not above MaxInt32.
pub sign_award-Given :
    (e : Env) (id : ℤ) (p : Player)
    → Payable e id p
    → let (q, r) = sign_award e id p in
      ((r ≡ success) × Given e id p q) ⊎ ((r ≢ success) × (q ≡ p) × Refused e id p)
sign_award-Given e id p payable = elim (sign_award-Taken e id p) [
  | inr refused ↦ inr refused
  | inl (done, t) ↦
      let (l, row, same) = t.rewarded in
      let (r, room) = payable l row in
      inl
        (done, record { taken = t; paid = (l, row, λ j s. same j ∙ reward_paid e l p r room j s) })
]

-- What a client asks for, with the time of the request in the environment.
pub data SignCall : Type 0 where
  look : Env → SignCall
  award : Env → ℤ → SignCall

abbrev sign_step : SignCall → Player → Player
sign_step (look e) p = (get_sign_data e p).0
sign_step (award e id) p = (sign_award e id p).0

-- The awards that the requests of a list give, in order.
abbrev pub mark : Ret → ℤ → List ℤ → List ℤ
mark success id l = id ∷ l
mark r id l = l

abbrev pub awards : List SignCall → Player → List ℤ
awards [] p = []
awards (look e ∷ cs) p = awards cs (get_sign_data e p).0
awards (award e id ∷ cs) p = let (q, r) = sign_award e id p in mark r id (awards cs q)

-- The numbers of a list follow each other by one, from behind `a` up to `b`.
abbrev pub InSequence : ℤ → List ℤ → ℤ → Type 0
InSequence a [] b = b ≡ a
InSequence a (i ∷ is) b = (i ≡ a +ℤ pos 1) × InSequence i is b

pub sign_run : List SignCall → Player → Player
sign_run [] p = p
sign_run (c ∷ cs) p = sign_run cs (sign_step c p)

-- The awards do not pass the signs, of which there are `n` at most, and none before the first sign.
pub record SignOk (n : ℕ) (p : Player) : Type 0 where
  pub nonneg : pos 0 ≤ℤ p.sign.award_index
  pub behind : p.sign.award_index ≤ℤ p.sign.signed_index
  pub bounded : p.sign.signed_index ≤ℤ pos n
  pub started : (pos 0 <ℤ p.sign.last_signed_time) ⊎ (p.sign.signed_index ≡ pos 0)

suc_exact : (a : ℤ) → pos 0 ≤ℤ a → a <ℤ max_int32 → a +₃₂ pos 1 ≡ a +ℤ pos 1
unfolding ◌+₃₂◌
suc_exact a h k = wrap32-eq _ (omega (arith, +ℤ_parts a (pos 1), parts_disjoint (a +ℤ pos 1)))

look-SignOk :
    (n : ℕ) (e : Env) (p : Player)
    → n < 2147483647
    → pos 0 <ℤ e.now
    → SignOk n p
    → SignOk (n + 1) (get_sign_data e p).0
unfolding get_sign_data check_signed sign_at send
look-SignOk n e p h t v =
    let s = p.sign.signed_index in
    let one : pos 0 ≤ℤ s = omega (arith, v.nonneg, v.behind) in
    let below : s <ℤ max_int32 = omega (arith, v.bounded) in
    ground (
      arith,
      suc_exact s one below,
      +ℤ_parts s (pos 1),
      =?-iff p.sign.last_signed_time (pos 0),
      v.started,
    )

award-SignOk :
    (n : ℕ) (e : Env) (id : ℤ) (p : Player)
    → n < 2147483648
    → SignOk n p
    → SignOk n (sign_award e id p).0
award-SignOk n e id p h v = elim (sign_award-Taken e id p) [
  | inl (_, g) ↦
      let a = p.sign.award_index in
      let below : a <ℤ max_int32 = omega (arith, g.earned, v.bounded) in
      let next : id ≡ a +ℤ pos 1 = sym g.in_order ∙ suc_exact a v.nonneg below in
      ground (arith, g.taken, g.earned, next, +ℤ_parts a (pos 1), v.nonneg, v.bounded, v.started)
  | inr (_, same, why) ↦ rw same v
]

mark_other : (r : Ret) (id : ℤ) (l : List ℤ) → r ≢ success → mark r id l ≡ l
mark_other success id l h = absurd (h refl)
mark_other r id l h = refl

look-award : (e : Env) (p : Player) → (get_sign_data e p).0.sign.award_index ≡ p.sign.award_index
unfolding get_sign_data check_signed sign_at send
look-award e p = ground arith

abbrev HasTime : SignCall → Type 0
HasTime (look e) = pos 0 <ℤ e.now
HasTime (award e id) = Unit {0}

abbrev AllTimed : List SignCall → Type 0
AllTimed [] = Unit {0}
AllTimed (c ∷ cs) = HasTime c × AllTimed cs

award-InSequence :
    (n : ℕ) (e : Env) (id : ℤ) (p : Player)
    → n < 2147483648
    → SignOk n p
    → (l : List ℤ) (b : ℤ) → InSequence (sign_award e id p).0.sign.award_index l b
    → InSequence p.sign.award_index (mark (sign_award e id p).1 id l) b
award-InSequence n e id p h v l b sequence = elim (sign_award-Taken e id p) [
  | inl (done, g) ↦
      let below : p.sign.award_index <ℤ max_int32 = omega (arith, g.earned, v.bounded) in
      let now : (sign_award e id p).0.sign.award_index ≡ id = ap (λ s. s.award_index) g.taken in
      rw done (sym g.in_order ∙ suc_exact p.sign.award_index v.nonneg below, rw now at sequence)
  | inr (refused, same, why) ↦
      rw (mark_other (sign_award e id p).1 id l refused) (rw same at sequence)
]

SignOk-mono : {m n : ℕ} {p : Player} → m ≤ n → SignOk m p → SignOk n p
SignOk-mono h v = record {
  nonneg = v.nonneg;
  behind = v.behind;
  bounded = omega (arith, v.bounded);
  started = v.started;
}

step-SignOk :
    (n : ℕ) (c : SignCall) (p : Player)
    → n < 2147483647
    → HasTime c
    → SignOk n p
    → SignOk (n + 1) (sign_step c p)
step-SignOk n (look e) p h t v = look-SignOk n e p h t v
step-SignOk n (award e id) p h t v =
    SignOk-mono {m = n} (omega arith) (award-SignOk n e id p (omega arith) v)

-- Whatever a client asks for, and in whatever order, the awards that it is given follow each other by
-- one, from behind the last one before, and stay between zero and its signs, of which there is one more
-- per request at most: from a player of whom that holds,
-- at positive times, and where the signs fit an int32.
pub sign_run-SignOk :
    (n : ℕ) (cs : List SignCall) (p : Player)
    → n + length cs < 2147483648
    → AllTimed cs
    → SignOk n p
    → SignOk (n + length cs) (sign_run cs p)
      × InSequence p.sign.award_index (awards cs p) (sign_run cs p).sign.award_index
unfolding sign_run
sign_run-SignOk n [] p h t v = (SignOk-mono {m = n} (omega arith) v, refl)
sign_run-SignOk n (look e ∷ cs) p h t v =
    let (ok, sequence) =
      sign_run-SignOk (n + 1) cs (get_sign_data e p).0 (omega arith) t.1
        (step-SignOk n (look e) p (omega arith) t.0 v) in
    (SignOk-mono {m = n + 1 + length cs} (omega arith) ok, rw (look-award e p) at sequence)
sign_run-SignOk n (award e id ∷ cs) p h t v =
    let (ok, sequence) =
      sign_run-SignOk (n + 1) cs (sign_award e id p).0 (omega arith) t.1
        (step-SignOk n (award e id) p (omega arith) t.0 v) in
    (
      SignOk-mono {m = n + 1 + length cs} (omega arith) ok,
      award-InSequence n e id p (omega arith) v (awards cs (sign_award e id p).0)
          (sign_run cs (sign_award e id p).0).sign.award_index sequence,
    )

signed_time :
    (e : Env) (p : Player)
    → (check_signed e p).1 ≡ signed
    → (check_signed e p).0.sign.last_signed_time ≡ e.now
unfolding check_signed sign_at
signed_time e p h = ground arith

same_date :
    (f : Env) (q : Player)
    → q.sign.last_signed_time ≢ pos 0
    → f.date f.now ≡ f.date q.sign.last_signed_time
    → check_signed f q ≡ (q, unchanged)
unfolding check_signed
same_date f q t d = ground (
  arith,
  =?-iff q.sign.last_signed_time (pos 0),
  =?-iff (f.date f.now) (f.date q.sign.last_signed_time),
)

-- After a look that signs, at a time that is not zero, a later look on the same date changes nothing.
pub sign_once_a_day :
    (e f : Env) (p : Player)
    → e.now ≢ pos 0
    → (check_signed e p).1 ≡ signed
    → f.date f.now ≡ f.date e.now
    → check_signed f (check_signed e p).0 ≡ ((check_signed e p).0, unchanged)
sign_once_a_day e f p t h d =
    let at = signed_time e p h in same_date f (check_signed e p).0 (rw at t) (rw at d)
