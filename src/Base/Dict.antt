-- ===== src/Base/Dict.antt =====
-- Go's `map[string]V` as an association list, the entry written first in front.
use go2net_spectra.Base.Tests.{if◌then◌else◌}
use go2net_spectra.Base.ByteText.{Bytes, bytes_eq, bytes_eq→eq, bytes_eq_refl, eq→bytes_eq}
use mathlib.Core.Path.{◌≡◌, refl}
use mathlib.Core.List.{List, [], ◌∷◌}
use mathlib.Core.Option.{Option, none, some}
use native.Mathlib.Omega.{arith}

module _ {ℓ} {V : Type ℓ} where
  unfoldable pub lookup : Bytes → List (Bytes × V) → Option V
  lookup k [] = none
  lookup k ((j, v) ∷ m) = if bytes_eq j k then some v else lookup k m

  unfoldable pub insert : Bytes → V → List (Bytes × V) → List (Bytes × V)
  insert k v [] = (k, v) ∷ []
  insert k v ((j, w) ∷ m) = if bytes_eq j k then (j, v) ∷ m else (j, w) ∷ insert k v m

  unfoldable pub delete : Bytes → List (Bytes × V) → List (Bytes × V)
  delete k [] = []
  delete k ((j, w) ∷ m) = if bytes_eq j k then delete k m else (j, w) ∷ delete k m

  pub lookup-insert :
      (k j : Bytes) (v : V) (m : List (Bytes × V))
      → lookup j (insert k v m) ≡ (if bytes_eq k j then some v else lookup j m)
  unfolding lookup insert
  lookup-insert k j v [] = refl
  lookup-insert k j v ((i, w) ∷ m) = ground (
    arith,
    bytes_eq→eq k j,
    bytes_eq→eq i k,
    bytes_eq→eq i j,
    eq→bytes_eq k j,
    eq→bytes_eq i k,
    eq→bytes_eq i j,
    lookup-insert k j v m,
  )

  pub lookup-insert_self :
      (k : Bytes) (v : V) (m : List (Bytes × V)) → lookup k (insert k v m) ≡ some v
  lookup-insert_self k v m = rw (lookup-insert, bytes_eq_refl)

  pub lookup-delete :
      (k j : Bytes) (m : List (Bytes × V))
      → lookup j (delete k m) ≡ (if bytes_eq k j then none else lookup j m)
  unfolding lookup delete
  lookup-delete k j [] = ground arith
  lookup-delete k j ((i, w) ∷ m) = ground (
    arith,
    bytes_eq→eq k j,
    bytes_eq→eq i k,
    bytes_eq→eq i j,
    eq→bytes_eq k j,
    eq→bytes_eq i k,
    eq→bytes_eq i j,
    lookup-delete k j m,
  )

  -- No key has two entries.
  abbrev pub UniqueKeys : List (Bytes × V) → Type ℓ
  UniqueKeys [] = Unit
  UniqueKeys ((k, v) ∷ m) = (lookup k m ≡ none) × UniqueKeys m

  pub insert-UniqueKeys :
      (k : Bytes) (v : V) (m : List (Bytes × V)) → UniqueKeys m → UniqueKeys (insert k v m)
  unfolding insert lookup
  insert-UniqueKeys k v [] u = (refl, tt)
  insert-UniqueKeys k v ((j, w) ∷ m) u =
      ground (
        arith,
        insert-UniqueKeys k v m u.1,
        lookup-insert k j v m,
        bytes_eq→eq k j,
        eq→bytes_eq j k,
      )
