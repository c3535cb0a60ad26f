-- ===== src/Mail/Oldest.antt =====
-- The ids of the mails of a box, and the least of them, which make_room of src/hall_server/player_mail.go
-- looks for.
use ih_server.Base.{
  ◌+◌, ◌<◌, ◌≤◌, ℤ, pos, ◌≤ℤ◌, ◌<ℤ◌, ◌<?◌, ◌=?◌, =?-iff, =?-refl, [], ◌∷◌, has_index, Bool-cases,
  inl, inr, ◌⊎◌, true, ◌||◌, length, lookup, insert, delete, Dict, ◌≡◌, refl, ◌∙◌, arith,
}
use ih_server.Mail.{MailData, first_index, all_index}

-- The ids are positive, and none is above `c`.
abbrev pub Within : ℤ → Dict MailData → Type 0
Within c [] = Unit
Within c ((k, d) ∷ m) = (pos 0 <ℤ k) × (k ≤ℤ c) × Within c m

module _ (c : ℤ) where
  pub insert-Within :
      (k : ℤ) (d : MailData) (m : Dict MailData)
      → pos 0 <ℤ k
      → k ≤ℤ c
      → Within c m
      → Within c (insert k d m)
  unfolding insert
  insert-Within k d [] low high h = (low, high, tt)
  insert-Within k d ((j, x) ∷ m) low high (a, b, h) = elim (Bool-cases (j =? k)) [
    | inl same ↦ rw (insert, same) (low, high, h)
    | inr other ↦ rw (insert, other) (a, b, insert-Within k d m low high h)
  ]

  pub delete-Within : (k : ℤ) (m : Dict MailData) → Within c m → Within c (delete k m)
  unfolding delete
  delete-Within k [] h = h
  delete-Within k ((j, x) ∷ m) (a, b, h) = elim (Bool-cases (j =? k)) [
    | inl same ↦ rw (delete, same) (delete-Within k m h)
    | inr other ↦ rw (delete, other) (a, b, delete-Within k m h)
  ]

pub Within-weaker : (c d : ℤ) (m : Dict MailData) → c ≤ℤ d → Within c m → Within d m
Within-weaker c d [] le h = h
Within-weaker c d ((k, x) ∷ m) le (a, b, h) = (a, omega (arith, b, le), Within-weaker c d m le h)

pub Within-bound :
    (c k : ℤ) (m : Dict MailData) → Within c m → has_index k m ≡ true → (pos 0 <ℤ k) × (k ≤ℤ c)
unfolding lookup
Within-bound c k [] h here = absurd (ground (arith, here))
Within-bound c k ((j, x) ∷ m) (a, b, h) here = elim (Bool-cases (j =? k)) [
  | inl same ↦ ground (arith, same, a, b, =?-iff j k)
  | inr other ↦ Within-bound c k m h (ground (arith, here, other))
]

pub length-insert :
    (k : ℤ) (d : MailData) (m : Dict MailData) → length (insert k d m) ≤ length m + 1
unfolding insert
length-insert k d [] = omega arith
length-insert k d ((j, x) ∷ m) = ground (arith, length-insert k d m)

pub length-delete : (k : ℤ) (m : Dict MailData) → length (delete k m) ≤ length m
unfolding delete
length-delete k [] = omega arith
length-delete k ((j, x) ∷ m) = ground (arith, length-delete k m)

pub length-delete_there :
    (k : ℤ) (m : Dict MailData) → has_index k m ≡ true → length (delete k m) + 1 ≤ length m
unfolding delete lookup
length-delete_there k [] here = absurd (ground (arith, here))
length-delete_there k ((j, x) ∷ m) here = elim (Bool-cases (j =? k)) [
  | inl same ↦ ground (arith, same, length-delete k m)
  | inr other ↦ ground (arith, other, here, length-delete_there k m)
]

pub has_index-cons :
    (k j : ℤ) (x : MailData) (m : Dict MailData)
    → has_index k ((j, x) ∷ m) ≡ ((j =? k) || has_index k m)
unfolding lookup
has_index-cons k j x m = ground arith

-- What the search for the first index finds, from an index that is zero or positive.
pub record First (m : Dict MailData) (first r : ℤ) : Type 0 where
  pub found : (r ≡ first) ⊎ (has_index r m ≡ true)
  pub no_more : (pos 0 <ℤ first) → r ≤ℤ first
  pub least : (k : ℤ) → has_index k m ≡ true → r ≤ℤ k
  pub some_found : (0 < length m) ⊎ (pos 0 <ℤ first) → pos 0 <ℤ r

pub first_index-First :
    (c : ℤ) (m : Dict MailData) (first : ℤ)
    → Within c m
    → pos 0 ≤ℤ first
    → First m first (first_index (all_index m) first)
unfolding first_index lookup
first_index-First c [] first h low = record {
  found = inl refl;
  no_more = λ p. omega arith;
  least = λ k here. absurd (ground (arith, here));
  some_found = λ p. elim p [ inl q ↦ absurd (omega (arith, q)) | inr q ↦ q ];
}
first_index-First c ((j, x) ∷ m) first (a, b, h) low =
    elim (Bool-cases (j <? first || first =? pos 0)) [
      | inl taken ↦
          let f = first_index-First c m j h (omega (arith, a)) in
          rw (first_index, taken)
            (record {
              found = elim f.found [
                | inl is_j ↦ inr (has_index-cons _ j x m ∙ ground (arith, is_j, =?-refl j))
                | inr later ↦ inr (has_index-cons _ j x m ∙ ground (arith, later))
              ];
              no_more = λ p. ground (arith, f.no_more a, taken, p);
              least = λ k here.
                  ground (arith, has_index-cons k j x m, here, f.least k, f.no_more a, =?-iff j k);
              some_found = λ p. f.some_found (inr a);
            })
      | inr kept ↦
          let f = first_index-First c m first h low in
          rw (first_index, kept)
            (record {
              found = elim f.found [
                | inl is_first ↦ inl is_first
                | inr later ↦ inr (has_index-cons _ j x m ∙ ground (arith, later))
              ];
              no_more = f.no_more;
              least = λ k here. ground (
                arith,
                has_index-cons k j x m,
                here,
                f.least k,
                f.no_more,
                kept,
                low,
                =?-iff j k,
              );
              some_found = λ p. f.some_found (inr (ground (arith, kept, low)));
            })
    ]
