-- ===== src/RankList/Scan.antt =====
-- The scans of Update: which items they pass, and which one stops them.
use ih_server.Base.{
  ℕ, zero, suc, ◌+◌, ◌-◌, ◌≤◌, ◌<◌, List, Option, Bool-cases, inl, inr, true, false, ◌==◌, ◌≡◌,
  arith,
}
use ih_server.RankList.{ShortRankItem, at, beats, scan_left, scan_right}

module _ {Item : Type 0} (o : ShortRankItem Item) where
  pub scan_left-beats :
      (x : Item) (l : List (Option Item)) (n j : ℕ)
      → scan_left o x l n ≤ j
      → j < n
      → beats o x (at l j) ≡ true
  unfolding scan_left
  scan_left-beats x l zero j h k = absurd (omega arith)
  scan_left-beats x l (suc n) j h k = elim (Bool-cases (beats o x (at l n))) [
    | inr stop ↦ absurd (ground (arith, h))
    | inl go ↦ elim (Bool-cases (n == j)) [
      | inl same ↦ ground arith
      | inr other ↦ scan_left-beats x l n j (ground (arith, h)) (ground arith)
    ]
  ]

  pub scan_left-stops :
      (x : Item) (l : List (Option Item)) (n : ℕ)
      → 0 < scan_left o x l n
      → beats o x (at l (scan_left o x l n - 1)) ≡ false
  unfolding scan_left
  scan_left-stops x l zero h = absurd (omega arith)
  scan_left-stops x l (suc n) h = elim (Bool-cases (beats o x (at l n))) [
    | inr stop ↦ ground (arith, stop)
    | inl go ↦ ground (arith, go, scan_left-stops x l n (ground (arith, h, go)))
  ]

  pub scan_right-keeps :
      (x : Item) (l : List (Option Item)) (c i j : ℕ)
      → i ≤ j
      → j < scan_right o x l c i
      → beats o x (at l j) ≡ false
  unfolding scan_right
  scan_right-keeps x l zero i j h k = absurd (omega arith)
  scan_right-keeps x l (suc c) i j h k = elim (Bool-cases (beats o x (at l i))) [
    | inl stop ↦ absurd (ground (arith, k))
    | inr go ↦ elim (Bool-cases (i == j)) [
      | inl same ↦ ground arith
      | inr other ↦ scan_right-keeps x l c (suc i) j (ground arith) (ground (arith, k))
    ]
  ]

  pub scan_right-stops :
      (x : Item) (l : List (Option Item)) (c i : ℕ)
      → scan_right o x l c i < i + c
      → beats o x (at l (scan_right o x l c i)) ≡ true
  unfolding scan_right
  scan_right-stops x l zero i h = absurd (omega arith)
  scan_right-stops x l (suc c) i h = elim (Bool-cases (beats o x (at l i))) [
    | inl stop ↦ rw stop stop
    | inr go ↦ ground (arith, go, scan_right-stops x l c (suc i) (ground (arith, h, go)))
  ]
