-- ===== src/ServerList/Cross.antt =====
-- The maps of the crosses that _read_config builds.
use ih_server.Base.{
  contains, ℕ, zero, suc, ◌+◌, ◌<◌, ℤ, List, [], ◌∷◌, Option, none, some, Bool, true, false,
  Bool-cases, ◌⊎◌, inl, inr, if◌then◌else◌, get_elem?, lookup, insert, lookup-insert, Dict, is_some,
  map, ◌≡◌, refl, ◌∙◌, arith,
}
use ih_server.ServerList.{
  CrossInfo, ServerList, map_servers, map_crosses, index_crosses, is_same_cross, same_pointer,
  HallServerInfo, get_server_by_id, has_server_id,
}

-- Whether the element of a cross list lists a server.
abbrev pub lists : ℤ → Option (Option CrossInfo) → Bool
lists id (some (some c)) = contains id c.server_ids
lists id (some none) = false
lists id none = false

lookup-map_servers :
    (c : ℕ) (ids : List ℤ) (m : Dict ℕ) (id : ℤ)
    → lookup id (map_servers c ids m) ≡ (if contains id ids then some c else lookup id m)
unfolding map_servers
lookup-map_servers c [] m id = refl
lookup-map_servers c (j ∷ ids) m id =
    lookup-map_servers c ids (insert j c m) id ∙ ground (arith, lookup-insert j id c m)

-- What the loop over the crosses from index `k` on leaves for a server.
abbrev Mapped : ℤ → ℕ → List (Option CrossInfo) → Dict ℕ → Option ℕ → Type 0
Mapped id k l m o =
    ((i : ℕ) × (o ≡ some (k + i))
      × (lists id (get_elem? l i) ≡ true)
      × ((j : ℕ) → i < j → lists id (get_elem? l j) ≡ false))
    ⊎ ((o ≡ lookup id m) × ((j : ℕ) → lists id (get_elem? l j) ≡ false))

later_only :
    (id : ℤ) (o : Option CrossInfo) (l : List (Option CrossInfo)) (i j : ℕ)
    → ((n : ℕ) → i < n → lists id (get_elem? l n) ≡ false)
    → suc i < j
    → lists id (get_elem? (o ∷ l) j) ≡ false
later_only id o l i zero h lt = absurd (omega (arith, lt))
later_only id o l i (suc j) h lt = h j (omega (arith, lt))

after :
    (id : ℤ) (o : Option CrossInfo) (l : List (Option CrossInfo)) (j : ℕ)
    → ((n : ℕ) → lists id (get_elem? l n) ≡ false)
    → 0 < j
    → lists id (get_elem? (o ∷ l) j) ≡ false
after id o l zero h lt = absurd (omega (arith, lt))
after id o l (suc j) h lt = h j

nowhere_at :
    (id : ℤ) (o : Option CrossInfo) (l : List (Option CrossInfo)) (j : ℕ)
    → lists id (some o) ≡ false
    → ((n : ℕ) → lists id (get_elem? l n) ≡ false)
    → lists id (get_elem? (o ∷ l) j) ≡ false
nowhere_at id o l zero first h = first
nowhere_at id o l (suc j) first h = h j

map_crosses-Mapped :
    (k : ℕ) (l : List (Option CrossInfo)) (m n : Dict ℕ) (id : ℤ)
    → Mapped id k l n (lookup id (map_crosses k l (m, n)).1)
unfolding map_crosses
map_crosses-Mapped k [] m n id = inr (refl, λ j. refl)
map_crosses-Mapped k (none ∷ l) m n id = elim (map_crosses-Mapped (suc k) l m n id) [
  | inl (i, at_i, here, last) ↦
      inl (suc i, ground (arith, at_i), here, λ j lt. later_only id none l i j last lt)
  | inr (left, nowhere) ↦ inr (left, λ j. nowhere_at id none l j refl nowhere)
]
map_crosses-Mapped k (some c ∷ l) m n id =
    elim (map_crosses-Mapped (suc k) l (insert c.id k m) (map_servers k c.server_ids n) id) [
      | inl (i, at_i, here, last) ↦
          inl (suc i, ground (arith, at_i), here, λ j lt. later_only id (some c) l i j last lt)
      | inr (left, nowhere) ↦ elim (Bool-cases (contains id c.server_ids)) [
        | inl is_in ↦ inl (
          0,
          left ∙ ground (arith, lookup-map_servers k c.server_ids n id, is_in),
          is_in,
          λ j lt. after id (some c) l j nowhere lt,
        )
        | inr is_out ↦ inr (
          left ∙ ground (arith, lookup-map_servers k c.server_ids n id, is_out),
          λ j. nowhere_at id (some c) l j is_out nowhere,
        )
      ]
    ]

-- No cross of the list names the server.
abbrev pub Unlisted : ℤ → List (Option CrossInfo) → Type 0
Unlisted id l = (j : ℕ) → lists id (get_elem? l j) ≡ false

-- The cross that a server is in: the last one of the list that names it.
indexed :
    (s : ServerList) (l : List (Option CrossInfo)) (id : ℤ)
    → s.cross_list ≡ some l
    → Mapped id 0 l [] (lookup id (index_crosses s).server_id2cross)
unfolding index_crosses
indexed s l id h = rw h (map_crosses-Mapped 0 l [] [] id)

-- On a list of crosses as _read_config indexes it, IsSameCross holds of two servers only if one cross
-- names them both or no cross names either, and of two servers that no cross names it always holds.
pub is_same_cross_exact :
    (s : ServerList) (l : List (Option CrossInfo)) (a b : ℤ)
    → s.cross_list ≡ some l
    → (is_same_cross a b (index_crosses s) ≡ true
        → (Unlisted a l × Unlisted b l)
          ⊎ ((i : ℕ) × (lists a (get_elem? l i) ≡ true) × (lists b (get_elem? l i) ≡ true)))
      × (Unlisted a l → Unlisted b l → is_same_cross a b (index_crosses s) ≡ true)
unfolding is_same_cross same_pointer lookup
is_same_cross_exact s l a b h = elim (indexed s l a h) [
  | inl (i, a_at, a_in, a_last) ↦ elim (indexed s l b h) [
    | inl (j, b_at, b_in, b_last) ↦ (
      λ same. inr (i, a_in, ground (arith, same, a_at, b_at, b_in)),
      λ na nb. absurd (ground (arith, na i, a_in)),
    )
    | inr (b_at, b_out) ↦ (
      λ same. absurd (ground (arith, same, a_at, b_at)),
      λ na nb. absurd (ground (arith, na i, a_in)),
    )
  ]
  | inr (a_at, a_out) ↦ elim (indexed s l b h) [
    | inl (j, b_at, b_in, b_last) ↦ (
      λ same. absurd (ground (arith, same, a_at, b_at)),
      λ na nb. absurd (ground (arith, nb j, b_in)),
    )
    | inr (b_at, b_out) ↦ (λ same. inl (a_out, b_out), λ na nb. ground (arith, a_at, b_at))
  ]
]

-- Where no server of a list is nil, HasServerId tells whether GetServerById finds one.
has_server_id-get_server_by_id :
    (id : ℤ) (l : List HallServerInfo)
    → has_server_id id (map some l) ≡ some (is_some (get_server_by_id id (map some l)))
unfolding has_server_id get_server_by_id
has_server_id-get_server_by_id id [] = refl
has_server_id-get_server_by_id id (s ∷ l) = ground (arith, has_server_id-get_server_by_id id l)
