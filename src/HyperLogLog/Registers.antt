-- ===== src/HyperLogLog/Registers.antt =====
-- The registers only grow, and an element that has been recorded changes nothing when it comes again.
use go2net_spectra.Base.{
  ◌⊎◌, inl, inr, Bool-cases, ℕ, zero, suc, ◌≤◌, ◌<◌, ◌≡◌, refl, arith, Bytes, List, [], ◌∷◌, length,
  get_or, set, get_or-set_self, leb, length-set,
}
use go2net_spectra.HyperLogLog.{Floats, GeneralHll, geometric_hash, register, encode, add_pbits}

-- As many registers as `m` says, and at least one.
abbrev pub IsHll : {F : Type 0} → GeneralHll F → Type 0
IsHll g = (0 < g.m) × (length g.hll ≡ g.m)

get_or-set_grows :
    (xs : List ℕ) (i v k : ℕ) → get_or xs i 0 < v → get_or xs k 0 ≤ get_or (set xs i v) k 0
get_or-set_grows [] i v k h = omega arith
get_or-set_grows (x ∷ xs) zero v zero h = omega arith
get_or-set_grows (x ∷ xs) zero v (suc k) h = omega arith
get_or-set_grows (x ∷ xs) (suc i) v zero h = omega arith
get_or-set_grows (x ∷ xs) (suc i) v (suc k) h = get_or-set_grows xs i v k h

-- The structure has recorded the element.
module _ (fl : Floats) where
  abbrev pub Recorded : GeneralHll fl.F → Bytes → Type 0
  Recorded g e = geometric_hash fl g e ≤ get_or g.hll (register fl g e) 0

  pub encode-IsHll : (g : GeneralHll fl.F) (e : Bytes) → IsHll g → IsHll (encode fl g e).1
  unfolding encode
  encode-IsHll g e h = ground (arith, length-set g.hll (register fl g e) (geometric_hash fl g e))

  -- The hashes of an element do not depend on the registers.
  geometric_hash-fixed :
      (g : GeneralHll fl.F) (hll : List ℕ) (p : fl.F) (e : Bytes)
      → geometric_hash fl (record g { hll = hll; pbits = p }) e ≡ geometric_hash fl g e
  unfolding geometric_hash
  geometric_hash-fixed g hll p e = refl

  register-fixed :
      (g : GeneralHll fl.F) (hll : List ℕ) (p : fl.F) (e : Bytes)
      → register fl (record g { hll = hll; pbits = p }) e ≡ register fl g e
  unfolding register
  register-fixed g hll p e = refl

  register-lt : (g : GeneralHll fl.F) (e : Bytes) → 0 < g.m → register fl g e < g.m
  unfolding register
  register-lt g e h = omega arith

  -- A structure that has grown at one register.
  raised : (g : GeneralHll fl.F) → ℕ → ℕ → fl.F → GeneralHll fl.F
  raised g i v p = record g { hll = set g.hll i v; pbits = p }

  encode-cases :
      (g : GeneralHll fl.F) (e : Bytes)
      → (Recorded g e × (encode fl g e ≡ (fl.minus_one, g)))
        ⊎ ((get_or g.hll (register fl g e) 0 < geometric_hash fl g e)
            × ((p : fl.F) × ((encode fl g e).1
                  ≡ raised g (register fl g e) (geometric_hash fl g e) p)))
  unfolding encode raised
  encode-cases g e =
      elim (Bool-cases (leb (geometric_hash fl g e) (get_or g.hll (register fl g e) 0))) [
        | inl low ↦ inl (ground (arith, low), rw low refl)
        | inr high ↦ inr (
          ground (arith, high),
          (add_pbits fl g (get_or g.hll (register fl g e) 0) (geometric_hash fl g e), rw high refl),
        )
      ]

  raised-Recorded :
      (g : GeneralHll fl.F) (e : Bytes) (p : fl.F)
      → IsHll g
      → Recorded (raised g (register fl g e) (geometric_hash fl g e) p) e
  unfolding raised
  raised-Recorded g e p (pos, size) =
      let i = register fl g e in
      let v = geometric_hash fl g e in
      let below : i < length g.hll = omega (arith, register-lt g e pos) in
      rw (geometric_hash-fixed g (set g.hll i v) p e, register-fixed g (set g.hll i v) p e)
        (omega (arith, get_or-set_self g.hll i v 0 below))

  raised-keeps :
      (g : GeneralHll fl.F) (e e' : Bytes) (p : fl.F)
      → get_or g.hll (register fl g e') 0 < geometric_hash fl g e'
      → Recorded g e
      → Recorded (raised g (register fl g e') (geometric_hash fl g e') p) e
  unfolding raised
  raised-keeps g e e' p higher h =
      let i = register fl g e' in
      let v = geometric_hash fl g e' in
      rw (geometric_hash-fixed g (set g.hll i v) p e, register-fixed g (set g.hll i v) p e)
        (omega (arith, h, get_or-set_grows g.hll i v (register fl g e) higher))

  pub encode-Recorded : (g : GeneralHll fl.F) (e : Bytes) → IsHll g → Recorded (encode fl g e).1 e
  encode-Recorded g e h = elim (encode-cases g e) [
    | inl (known, same) ↦ rw same known
    | inr (higher, (p, grown)) ↦ rw grown (raised-Recorded g e p h)
  ]

  pub encode-keeps :
      (g : GeneralHll fl.F) (e e' : Bytes) → Recorded g e → Recorded (encode fl g e').1 e
  encode-keeps g e e' h = elim (encode-cases g e') [
    | inl (known, same) ↦ rw same h
    | inr (higher, (p, grown)) ↦ rw grown (raised-keeps g e e' p higher h)
  ]

  -- An element that has been recorded is answered with -1 and changes nothing.
  pub encode_again :
      (g : GeneralHll fl.F) (e : Bytes) → Recorded g e → encode fl g e ≡ (fl.minus_one, g)
  unfolding encode
  encode_again g e h = ground (arith, h)
