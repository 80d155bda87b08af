-- ===== src/Base/Sort.antt =====
-- `slices.SortFunc` and `sort.Slice` with a comparison that puts the larger key first. The library
-- leaves the order of equal keys open; this is an insertion sort.
use Prim.Native.Nat.{ℕ, ◌≤◌}
use mathlib.Core.List.{List, [], ◌∷◌, Perm}
use mathlib.Core.List.Perm
use native.Mathlib.Omega.{arith}
use go2net_spectra.Base.Tests.{ltb, if◌then◌else◌, Bool-cases}
use mathlib.Core.Logic.{inl, inr}

module _ {ℓ} {A : Type ℓ} (key : A → ℕ) where
  unfoldable pub insert_desc : A → List A → List A
  insert_desc a [] = a ∷ []
  insert_desc a (x ∷ xs) = if ltb (key a) (key x) then x ∷ insert_desc a xs else a ∷ x ∷ xs

  unfoldable pub sort_desc : List A → List A
  unfolding insert_desc
  sort_desc [] = []
  sort_desc (x ∷ xs) = insert_desc x (sort_desc xs)

  -- No entry of the list has a key above `n`.
  abbrev pub AtMost : ℕ → List A → Type 0
  AtMost n [] = Unit
  AtMost n (x ∷ xs) = (key x ≤ n) × AtMost n xs

  -- Every entry's key bounds those behind it.
  abbrev pub IsDescending : List A → Type 0
  IsDescending [] = Unit
  IsDescending (x ∷ xs) = AtMost (key x) xs × IsDescending xs

  AtMost-mono : {m n : ℕ} (xs : List A) → m ≤ n → AtMost m xs → AtMost n xs
  AtMost-mono [] h b = tt
  AtMost-mono (x ∷ xs) h b = (omega arith, AtMost-mono xs h b.1)

  insert_desc-AtMost :
      (n : ℕ) (a : A) (xs : List A) → key a ≤ n → AtMost n xs → AtMost n (insert_desc a xs)
  unfolding insert_desc
  insert_desc-AtMost n a [] h b = (h, tt)
  insert_desc-AtMost n a (x ∷ xs) h b = ground (arith, insert_desc-AtMost n a xs h b.1)

  insert_desc-IsDescending :
      (a : A) (xs : List A) → IsDescending xs → IsDescending (insert_desc a xs)
  unfolding insert_desc
  insert_desc-IsDescending a [] d = (tt, tt)
  insert_desc-IsDescending a (x ∷ xs) d = ground (
    arith,
    insert_desc-AtMost (key x) a xs,
    insert_desc-IsDescending a xs d.1,
    AtMost-mono {m = key x} {n = key a} xs,
  )

  pub sort_desc-IsDescending : (xs : List A) → IsDescending (sort_desc xs)
  unfolding sort_desc
  sort_desc-IsDescending [] = tt
  sort_desc-IsDescending (x ∷ xs) =
      insert_desc-IsDescending x (sort_desc xs) (sort_desc-IsDescending xs)

  insert_desc-perm : (a : A) (xs : List A) → Perm (insert_desc a xs) (a ∷ xs)
  unfolding insert_desc
  insert_desc-perm a [] = Perm.refl (a ∷ [])
  insert_desc-perm a (x ∷ xs) = elim (Bool-cases (ltb (key a) (key x))) [
    | inl e ↦ rw e (Perm.trans (Perm.cons x (insert_desc-perm a xs)) (Perm.swap a x xs))
    | inr e ↦ rw e (Perm.refl (a ∷ x ∷ xs))
  ]

  pub sort_desc-perm : (xs : List A) → Perm (sort_desc xs) xs
  unfolding sort_desc
  sort_desc-perm [] = Perm.refl []
  sort_desc-perm (x ∷ xs) =
      Perm.trans (insert_desc-perm x (sort_desc xs)) (Perm.cons x (sort_desc-perm xs))
