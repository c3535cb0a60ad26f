-- ===== src/Player/Resource/Price.antt =====
-- check_resources and cost_resources: a price is paid in full or not at all.
use ih_server.Base.{
  ℤ, pos, negsuc, ◌+ℤ◌, ◌-ℤ◌, ◌-₃₂◌, neg32, wrap32, -ℤ_parts, parts_disjoint, eq_of_parts, IsInt32,
  ◌≤ℤ◌, ◌<ℤ◌, ◌=?◌, =?-iff, List, [], ◌∷◌, none, some, Option-cases, Bool-cases, inl, inr, true,
  false, if◌then◌else◌, lookup, ◌≡◌, ◌≢◌, ◌⊎◌, =?-refl, ◌<?◌, refl, sym, arith,
}
use ih_server.Player.Env.{Env}
use ih_server.Player.State.{Player, value_or_zero, send, pairs}
use ih_server.Player.Resource.{
  get_item, add_gold, add_diamond, del_item, gold_id, diamond_id, exp_id, vip_exp_id,
}
use ih_server.Player.Resource.ById.{
  get_resource, add_resource, add_item_resource, check_pairs, cost_pairs, cost_resources,
}
use ih_server.Player.Resource.Money.{saturate, add_money-saturate}
use ih_server.Player.Resource.Items.{Counted, taken_exact, del_counts}

-- Every resource is in the range of an int32 and not negative.
abbrev pub Solvent : Player → Type 0
Solvent p = Counted (get_resource p)

-- A resource that can be a price: experience cannot be taken.
abbrev pub IsSpendable : ℤ → Type 0
IsSpendable id = (id =? exp_id ≡ false) × (id =? vip_exp_id ≡ false)

neg_neg :
    (n : ℤ)
    → pos 0 <ℤ n
    → IsInt32 n
    → (neg32 (neg32 n) ≡ n) × IsInt32 (neg32 n) × (neg32 n ≡ pos 0 -ℤ n) × (neg32 n <ℤ pos 0)
unfolding neg32 ◌-₃₂◌ wrap32 ◌-ℤ◌
neg_neg (pos a) h i = ground arith
neg_neg (negsuc a) h i = absurd (omega arith)

paid_money :
    (n old : ℤ) → pos 0 <ℤ n → n ≤ℤ old → IsInt32 old → saturate (old +ℤ neg32 n) ≡ old -ℤ n
paid_money n old h k i =
    let m = neg_neg n h (omega (arith, parts_disjoint n, parts_disjoint old)) in
    ground (arith, m, taken_exact old n h k i, -ℤ_parts old n)

-- The resources but for the case of an item, at each of the ids.
module _ (e : Env) (n : ℤ) (p : Player) (s : Solvent p) (h : pos 0 <ℤ n) where
  pay_gold :
      n ≤ℤ p.gold
      → (j : ℤ)
      → get_resource (add_gold (neg32 n) p) j
        ≡ (if gold_id =? j then p.gold -ℤ n else get_resource p j)
  unfolding add_gold get_resource
  pay_gold k j =
      let i = s gold_id in
      let m = neg_neg n h (omega (arith, parts_disjoint n, parts_disjoint p.gold)) in
      ground (
        arith,
        =?-iff gold_id j,
        =?-iff j gold_id,
        m,
        add_money-saturate (neg32 n) p.gold m.1 i.1 i.0,
        paid_money n p.gold h k i.1,
      )

  pay_diamond :
      n ≤ℤ p.diamond
      → (j : ℤ)
      → get_resource (add_diamond (neg32 n) p) j
        ≡ (if diamond_id =? j then p.diamond -ℤ n else get_resource p j)
  unfolding add_diamond get_resource send
  pay_diamond k j =
      let i = s diamond_id in
      let m = neg_neg n h (omega (arith, parts_disjoint n, parts_disjoint p.diamond)) in
      ground (
        arith,
        =?-iff diamond_id j,
        =?-iff j diamond_id,
        m,
        add_money-saturate (neg32 n) p.diamond m.1 i.1 i.0,
        paid_money n p.diamond h k i.1,
      )

  pay_item :
      (id : ℤ)
      → IsSpendable id
      → id =? gold_id ≡ false
      → id =? diamond_id ≡ false
      → n ≤ℤ get_item p id
      → (j : ℤ)
      → get_resource (del_item id n p).0 j
        ≡ (if id =? j then get_item p id -ℤ n else get_resource p j)
  unfolding get_resource del_item
  pay_item id x g d k j = elim (Option-cases (lookup id p.items)) [
    | inl e ↦ absurd (
        let z : value_or_zero (lookup id p.items) ≡ pos 0 = rw e in
        let k' : n ≤ℤ pos 0 = rw z at k in omega arith)
    | inr (c, e) ↦
        let back : value_or_zero (lookup id p.items) ≡ c = rw e in
        let i : (pos 0 ≤ℤ c) × IsInt32 c = ground (arith, s id, =?-iff id gold_id) in
        let k' : n ≤ℤ c = rw back at k in
        rw (e, del_item)
          (ground (
            arith,
            taken_exact c n h k' i.1,
            del_counts id c n j p.items e h k' i.1,
            =?-iff id j,
            back,
          ))
  ]

-- Paying one price takes exactly its amount from its resource.
pay_one :
    (e : Env) (id n : ℤ) (p : Player)
    → Solvent p
    → IsSpendable id
    → pos 0 <ℤ n
    → n ≤ℤ get_resource p id
    → (j : ℤ)
    → get_resource (add_resource e id (neg32 n) p).0 j
      ≡ (if id =? j then get_resource p id -ℤ n else get_resource p j)
unfolding add_resource add_item_resource get_resource
pay_one e id n p s x h k j = elim (Bool-cases (id =? gold_id)) [
  | inl g ↦ let at = (=?-iff id gold_id).0 g in rw at (pay_gold e n p s h (rw at at k) j)
  | inr g ↦ elim (Bool-cases (id =? diamond_id)) [
    | inl d ↦ let at = (=?-iff id diamond_id).0 d in rw at (pay_diamond e n p s h (rw at at k) j)
    | inr d ↦
        let k' : n ≤ℤ get_item p id = ground arith in
        let i : IsInt32 (get_item p id) = ground (arith, s id) in
        let m = neg_neg n h (omega (arith, parts_disjoint n, parts_disjoint (get_item p id))) in
        ground (arith, m, pay_item e n p s h id x g d k' j)
  ]
]

-- A price names spendable resources, each once, in positive amounts.
abbrev pub IsPrice : List (ℤ × ℤ) → Type 0
IsPrice [] = Unit {0}
IsPrice ((id, n) ∷ l) = IsSpendable id × (pos 0 <ℤ n) × (lookup id l ≡ none) × IsPrice l

-- The amount of a resource in a price.
abbrev pub amount : List (ℤ × ℤ) → ℤ → ℤ
amount l j = value_or_zero (lookup j l)

sub_zero : (a : ℤ) → a ≡ a -ℤ pos 0
sub_zero a = eq_of_parts _ _ (omega (arith, -ℤ_parts a (pos 0)))

check_pairs-same :
    (l : List (ℤ × ℤ)) (id c : ℤ) (p q : Player)
    → lookup id l ≡ none
    → ((j : ℤ) → get_resource q j ≡ (if id =? j then c else get_resource p j))
    → check_pairs l q ≡ check_pairs l p
unfolding check_pairs lookup
check_pairs-same [] id c p q a h = refl
check_pairs-same ((i, n) ∷ l) id c p q a h =
    ground (arith, h i, =?-iff id i, =?-iff i id, check_pairs-same l id c p q)

module _ (e : Env) where
  paid-Solvent :
      (id n : ℤ) (p : Player)
      → Solvent p
      → IsSpendable id
      → pos 0 <ℤ n
      → n ≤ℤ get_resource p id
      → Solvent (add_resource e id (neg32 n) p).0
  paid-Solvent id n p s x h k j =
      let left = get_resource p id -ℤ n in
      elim (Bool-cases (id =? j)) [
        | inl at ↦
            rw (pay_one e id n p s x h k j, at)
              (omega (arith, s id, -ℤ_parts (get_resource p id) n, parts_disjoint left))
        | inr at ↦ rw (pay_one e id n p s x h k j, at) (s j)
      ]

  pub cost_pairs_lem :
      (l : List (ℤ × ℤ)) (p : Player)
      → Solvent p
      → IsPrice l
      → check_pairs l p ≡ true
      → Solvent (cost_pairs e l p)
        × ((j : ℤ) → get_resource (cost_pairs e l p) j ≡ get_resource p j -ℤ amount l j)
  unfolding cost_pairs lookup check_pairs
  cost_pairs_lem [] p s x h = (s, λ j. sub_zero (get_resource p j))
  cost_pairs_lem ((id, n) ∷ l) p s (x, pos_n, new, rest) h =
      let k : n ≤ℤ get_resource p id = ground arith in
      let q = (add_resource e id (neg32 n) p).0 in
      let one = pay_one e id n p s x pos_n k in
      let still : check_pairs l q ≡ true = ground (arith, check_pairs-same l id _ p q new one) in
      let ih = cost_pairs_lem l q (paid-Solvent id n p s x pos_n k) rest still in
      (
        ih.0,
        λ j. elim (Bool-cases (id =? j)) [
          | inl at ↦
              let none_left : lookup j l ≡ none = rw (← (=?-iff id j).0 at) new in
              rw (ih.1 j, one j, at, none_left) (rw (← (=?-iff id j).0 at) (sym (sub_zero _)))
          | inr at ↦ rw (ih.1 j, one j, at)
        ],
      )

-- check_pairs finds out whether no resource falls short of its amount.
pub check_pairs_iff :
    (l : List (ℤ × ℤ)) (p : Player)
    → Solvent p
    → IsPrice l
    → ((check_pairs l p ≡ true) × ((j : ℤ) → amount l j ≤ℤ get_resource p j))
      ⊎ ((check_pairs l p ≡ false) × ((j : ℤ) × (get_resource p j <ℤ amount l j)))
unfolding check_pairs lookup
check_pairs_iff [] p s x = inl (refl, λ j. (s j).0)
check_pairs_iff ((id, n) ∷ l) p s (spend, pos_n, new, rest) =
    elim (Bool-cases (get_resource p id <? n)) [
      | inl short ↦ inr (ground (arith, short), (id, ground (arith, short, =?-refl id)))
      | inr enough ↦ elim (check_pairs_iff l p s rest) [
        | inl (all, each) ↦
            inl (ground (arith, enough, all), λ j. ground (arith, each j, enough, =?-iff id j))
        | inr (some_short, (j, short)) ↦
            let missing : j ≢ id = λ at.
              let zero : amount l j ≡ pos 0 = rw (at, new) refl in
              absurd (ground (arith, zero, short, s j)) in
            inr
              (ground (arith, enough, some_short), (j, ground (arith, short, missing, =?-iff id j)))
      ]
    ]

-- cost_resources pays a price in full if no resource falls short of its amount, and else refuses and
-- changes no resource; the resources stay int32s that are not negative. They are so before, and the price names spendable
-- resources, each once, in positive amounts.
pub cost_resources_exact :
    (e : Env) (items : List ℤ) (p : Player)
    → Solvent p
    → IsPrice (pairs items)
    → let (q, paid) = cost_resources e (some items) p in
      (((paid ≡ true) × ((j : ℤ) → amount (pairs items) j ≤ℤ get_resource p j))
        ⊎ ((paid ≡ false) × ((j : ℤ) × (get_resource p j <ℤ amount (pairs items) j))))
      × ((j : ℤ)
          → get_resource q j
            ≡ (if paid then get_resource p j -ℤ amount (pairs items) j else get_resource p j))
      × Solvent q
unfolding cost_resources
cost_resources_exact e items p s x = elim (check_pairs_iff (pairs items) p s x) [
  | inl (enough, each) ↦
      let done = cost_pairs_lem e (pairs items) p s x enough in
      rw enough (inl (refl, each), done.1, done.0)
  | inr (short, lack) ↦ rw short (inr (refl, lack), λ j. refl, s)
]
