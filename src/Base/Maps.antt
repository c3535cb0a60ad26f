-- ===== src/Base/Maps.antt =====
-- Go's maps with int32 keys, as association lists. Go leaves the order of iteration open: it is the
-- order of the list here, and the laws below do not depend on it.
use mathlib.Core.Path.{◌≡◌, refl}
use mathlib.Core.Bool.{Bool}
use mathlib.Core.List.{List, [], ◌∷◌}
use mathlib.Core.Option.{Option, none, some}
use native.Mathlib.Omega.{arith}
use ih_server.Base.Tests.{if◌then◌else◌, is_some}
use ih_server.Base.Int.{ℤ, ◌=?◌, =?-iff}

abbrev pub Dict {ℓ} : Type ℓ → Type ℓ
Dict V = List (ℤ × V)

module _ {ℓ} {V : Type ℓ} where
  unfoldable pub lookup : ℤ → Dict V → Option V
  lookup k [] = none
  lookup k ((j, v) ∷ m) = if j =? k then some v else lookup k m

  -- m[k] = v
  unfoldable pub insert : ℤ → V → Dict V → Dict V
  insert k v [] = (k, v) ∷ []
  insert k v ((j, w) ∷ m) = if j =? k then (k, v) ∷ m else (j, w) ∷ insert k v m

  -- delete(m, k)
  unfoldable pub delete : ℤ → Dict V → Dict V
  delete k [] = []
  delete k ((j, w) ∷ m) = if j =? k then delete k m else (j, w) ∷ delete k m

  pub lookup-insert :
      (k j : ℤ) (v : V) (m : Dict V)
      → lookup j (insert k v m) ≡ (if k =? j then some v else lookup j m)
  unfolding lookup insert
  lookup-insert k j v [] = refl
  lookup-insert k j v ((i, w) ∷ m) =
      ground (arith, =?-iff k j, =?-iff i k, =?-iff i j, lookup-insert k j v m)

  pub lookup-delete :
      (k j : ℤ) (m : Dict V) → lookup j (delete k m) ≡ (if k =? j then none else lookup j m)
  unfolding lookup delete
  lookup-delete k j [] = ground arith
  lookup-delete k j ((i, w) ∷ m) =
      ground (arith, =?-iff k j, =?-iff i k, =?-iff i j, lookup-delete k j m)

  abbrev pub has_index : ℤ → Dict V → Bool
  has_index k m = is_some (lookup k m)
