-- ===== src/Base/Texts.antt =====
-- Go's maps with keys of type string.
use Prim.Native.String.{String}
use text.Mathlib.Text.{◌==◌ as str_eq}
use text.Mathlib.TextEquality.{eq_iff}
use mathlib.Core.Path.{◌≡◌, refl}
use mathlib.Core.List.{List, [], ◌∷◌}
use mathlib.Core.Option.{Option, none, some}
use native.Mathlib.Omega.{arith}
use ih_server.Base.Tests.{if◌then◌else◌}

abbrev pub TextDict {ℓ} : Type ℓ → Type ℓ
TextDict V = List (String × V)

-- A string that is not there reads as the empty one.
abbrev pub text_or_empty : Option String → String
text_or_empty none = ""
text_or_empty (some s) = s

module _ {ℓ} {V : Type ℓ} where
  unfoldable pub text_lookup : String → TextDict V → Option V
  text_lookup k [] = none
  text_lookup k ((j, v) ∷ m) = if str_eq j k then some v else text_lookup k m

  -- m[k] = v
  unfoldable pub text_insert : String → V → TextDict V → TextDict V
  text_insert k v [] = (k, v) ∷ []
  text_insert k v ((j, w) ∷ m) = if str_eq j k then (k, v) ∷ m else (j, w) ∷ text_insert k v m

  -- delete(m, k)
  unfoldable pub text_delete : String → TextDict V → TextDict V
  text_delete k [] = []
  text_delete k ((j, w) ∷ m) = if str_eq j k then text_delete k m else (j, w) ∷ text_delete k m

  pub text_lookup-text_insert :
      (k j : String) (v : V) (m : TextDict V)
      → text_lookup j (text_insert k v m) ≡ (if str_eq k j then some v else text_lookup j m)
  unfolding text_lookup text_insert
  text_lookup-text_insert k j v [] = refl
  text_lookup-text_insert k j v ((i, w) ∷ m) =
      ground (arith, eq_iff k j, eq_iff i k, eq_iff i j, text_lookup-text_insert k j v m)

  pub text_lookup-text_delete :
      (k j : String) (m : TextDict V)
      → text_lookup j (text_delete k m) ≡ (if str_eq k j then none else text_lookup j m)
  unfolding text_lookup text_delete
  text_lookup-text_delete k j [] = ground arith
  text_lookup-text_delete k j ((i, w) ∷ m) =
      ground (arith, eq_iff k j, eq_iff i k, eq_iff i j, text_lookup-text_delete k j m)
