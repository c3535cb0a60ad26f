-- ===== src/Player/Equip/Worn.antt =====
-- How often the roles of a player wear an item.
use ih_server.Base.{
  ℕ, zero, suc, ◌+◌, ◌≤◌, ◌<◌, ℤ, pos, ◌<ℤ◌, ◌=?◌, =?-iff, List, [], ◌∷◌, some, Bool-cases, inl,
  inr, ◌⊎◌, if◌then◌else◌, length, lookup, insert, Dict, get_elem?, set, ◌≡◌, refl, sym, ap, ◌∙◌,
  arith,
}
use ih_server.Player.Equip.{slots}

abbrev pub one_if : ℤ → ℤ → ℕ
one_if x k = if x =? k then 1 else 0

abbrev pub worn_in : ℤ → List ℤ → ℕ
worn_in k [] = 0
worn_in k (x ∷ l) = one_if x k + worn_in k l

abbrev pub worn : ℤ → Dict (List ℤ) → ℕ
worn k [] = 0
worn k ((r, l) ∷ m) = worn_in k l + worn k m

-- Each role has no slots yet or all seven.
abbrev pub Fitted : Dict (List ℤ) → Type 0
Fitted [] = Unit
Fitted ((r, l) ∷ m) = ((length l ≡ 0) ⊎ (length l ≡ 7)) × Fitted m

pub worn_in-set :
    (k : ℤ) (l : List ℤ) (i : ℕ) (old v : ℤ)
    → get_elem? l i ≡ some old
    → worn_in k (set l i v) + one_if old k ≡ worn_in k l + one_if v k
worn_in-set k [] i old v there = absurd (ground (arith, there))
worn_in-set k (x ∷ l) zero old v there = ground (arith, there)
worn_in-set k (x ∷ l) (suc i) old v there = ground (arith, worn_in-set k l i old v there)

pub worn-insert :
    (k r : ℤ) (l n : List ℤ) (m : Dict (List ℤ))
    → lookup r m ≡ some l
    → worn k (insert r n m) + worn_in k l ≡ worn k m + worn_in k n
unfolding lookup insert
worn-insert k r l n [] there = absurd (ground (arith, there))
worn-insert k r l n ((j, x) ∷ m) there = elim (Bool-cases (j =? r)) [
  | inl same ↦
      let is : x ≡ l = ground (arith, there, same) in
      rw (insert, same) (omega (arith, ap (worn_in k) is))
  | inr other ↦
      let later = worn-insert k r l n m (ground (arith, there, other)) in
      rw (insert, other) (omega (arith, later))
]

pub worn_in-slots : (k : ℤ) (l : List ℤ) → pos 0 <ℤ k → worn_in k (slots l) ≡ worn_in k l
worn_in-slots k [] positive = ground (arith, positive, =?-iff (pos 0) k)
worn_in-slots k (x ∷ l) positive = refl

pub worn_in-there : (l : List ℤ) (i : ℕ) (x : ℤ) → get_elem? l i ≡ some x → 0 < worn_in x l
worn_in-there [] i x there = absurd (ground (arith, there))
worn_in-there (y ∷ l) zero x there = ground (arith, there, =?-iff y x)
worn_in-there (y ∷ l) (suc i) x there = ground (arith, worn_in-there l i x there)

pub worn-lookup :
    (k r : ℤ) (l : List ℤ) (m : Dict (List ℤ)) → lookup r m ≡ some l → worn_in k l ≤ worn k m
unfolding lookup
worn-lookup k r l [] there = absurd (ground (arith, there))
worn-lookup k r l ((j, x) ∷ m) there = elim (Bool-cases (j =? r)) [
  | inl same ↦ let is : x ≡ l = ground (arith, there, same) in omega (arith, ap (worn_in k) is)
  | inr other ↦ omega (arith, worn-lookup k r l m (ground (arith, there, other)))
]

pub get_elem?-some : (l : List ℤ) (i : ℕ) → i < length l → (x : ℤ) × (get_elem? l i ≡ some x)
get_elem?-some [] i h = absurd (omega (arith, h))
get_elem?-some (x ∷ l) zero h = (x, refl)
get_elem?-some (x ∷ l) (suc i) h = get_elem?-some l i (omega (arith, h))

length-slots : (l : List ℤ) → ((length l ≡ 0) ⊎ (length l ≡ 7)) → length (slots l) ≡ 7
length-slots [] h = refl
length-slots (x ∷ l) (inl zero_long) = absurd (omega (arith, zero_long))
length-slots (x ∷ l) (inr full) = full

pub lookup-Fitted :
    (r : ℤ) (l : List ℤ) (m : Dict (List ℤ)) → lookup r m ≡ some l → Fitted m → length (slots l) ≡ 7
unfolding lookup
lookup-Fitted r l [] there h = absurd (ground (arith, there))
lookup-Fitted r l ((j, x) ∷ m) there (a, h) = elim (Bool-cases (j =? r)) [
  | inl same ↦
      let is : x ≡ l = ground (arith, there, same) in
      ap (λ y. length (slots y)) (sym is) ∙ length-slots x a
  | inr other ↦ lookup-Fitted r l m (ground (arith, there, other)) h
]

pub insert-Fitted :
    (r : ℤ) (l : List ℤ) (m : Dict (List ℤ)) → length l ≡ 7 → Fitted m → Fitted (insert r l m)
unfolding insert
insert-Fitted r l [] full h = (inr full, tt)
insert-Fitted r l ((j, x) ∷ m) full (a, h) = elim (Bool-cases (j =? r)) [
  | inl same ↦ rw (insert, same) (inr full, h)
  | inr other ↦ rw (insert, other) (a, insert-Fitted r l m full h)
]
