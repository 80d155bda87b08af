-- ===== src/SuperSpread/Rows.antt =====
-- What one insertion does to a row: the registers of its slot only grow, and an element that they
-- have recorded changes nothing.
use go2net_spectra.Base.{
  sym, ◌⊎◌, ◌≢◌, ℕ, zero, suc, ◌+◌, ◌<◌, ◌≡◌, refl, ap, ◌∙◌, arith, Bytes, List, [], ◌∷◌, true,
  length, get_or, set, get_or-set_self, get_or-set_ne, length-set, All, All-get_or, All-set, ◌==◌,
  Bool-cases, inl, inr,
}
use go2net_spectra.HyperLogLog.{Floats, encode}
use go2net_spectra.HyperLogLog.Registers.{
  IsHll, Recorded, encode-IsHll, encode-Recorded, encode-keeps, encode_again,
}
use go2net_spectra.CountMin.{index}
use go2net_spectra.SuperSpread.{Slot, SuperSpread, vote, votes, insert_slot, no_slot, slot_at}

abbrev pub SlotShape : {F : Type 0} → Slot F → Type 0
SlotShape s = IsHll s.cm

abbrev pub RowShape : {F : Type 0} → ℕ → List (Slot F) → Type 0
RowShape w row = (length row ≡ w) × All SlotShape row

-- Every row has w slots, and every slot has as many registers as its structure says.
pub record IsValid {F : Type 0} (t : SuperSpread F) : Type 0 where
  pub wide : 0 < t.w
  pub shaped : All (RowShape t.w) t.table

decide : (i j : ℕ) → (i ≡ j) ⊎ (i ≢ j)
decide i j = elim (Bool-cases (i == j)) [
  | inl e ↦ inl (ground (arith, e))
  | inr e ↦ inr (ground (arith, e))
]

pub set-get_or : {A : Type 0} (xs : List A) (i : ℕ) (d : A) → set xs i (get_or xs i d) ≡ xs
set-get_or [] i d = refl
set-get_or (x ∷ xs) zero d = refl
set-get_or (x ∷ xs) (suc i) d = ap (◌∷◌ x) (set-get_or xs i d)

module _ (fl : Floats) where
  -- One row holds the observation.
  abbrev pub SeenRow : ℕ → Bytes → Bytes → ℕ → List (Slot fl.F) → Type 0
  SeenRow w flow merged s row = Recorded fl (slot_at fl row (index w flow s)).cm merged

  abbrev pub SeenRows : ℕ → Bytes → Bytes → List ℕ → List (List (Slot fl.F)) → Type 0
  SeenRows w flow merged [] rows = Unit
  SeenRows w flow merged (s ∷ seeds) [] = Unit
  SeenRows w flow merged (s ∷ seeds) (row ∷ rows) =
      SeenRow w flow merged s row × SeenRows w flow merged seeds rows

  module _ (rand : ℕ → fl.F) (b : fl.F) where
    vote-cm : (flow : Bytes) (s : Slot fl.F) (n : ℕ) → (vote fl rand b flow s n).0.cm ≡ s.cm
    unfolding vote
    vote-cm flow s n = ground arith

    votes-cm :
        (flow : Bytes) (k : ℕ) (s : Slot fl.F) (n : ℕ) → (votes fl rand b flow k s n).0.cm ≡ s.cm
    unfolding votes
    votes-cm flow zero s n = refl
    votes-cm flow (suc k) s n =
        let (s', n') = vote fl rand b flow s n in votes-cm flow k s' n' ∙ vote-cm flow s n

    -- Whatever the vote, the registers are those of `encode`.
    pub insert_slot-cm :
        (flow merged : Bytes) (s : Slot fl.F) (n : ℕ)
        → (insert_slot fl rand b flow merged s n).0.cm ≡ (encode fl s.cm merged).1
    unfolding insert_slot
    insert_slot-cm flow merged s n =
        let (p, cm) = encode fl s.cm merged in
        let rounds = fl.ceil (fl.div fl.one p) in
        elim (Bool-cases (fl.eq p fl.minus_one)) [
          | inl known ↦ rw known refl
          | inr new ↦ elim (Bool-cases (fl.ge (rand n) (fl.div (fl.div fl.one p) rounds))) [
            | inl out ↦ rw (new, out) refl
            | inr sampled ↦
                rw (new, sampled) (votes-cm flow (fl.to_int rounds) (record s { cm = cm }) (n + 1))
          ]
        ]

    pub insert_slot_again :
        (flow merged : Bytes) (s : Slot fl.F) (n : ℕ)
        → fl.eq fl.minus_one fl.minus_one ≡ true
        → Recorded fl s.cm merged
        → insert_slot fl rand b flow merged s n ≡ (s, n)
    unfolding insert_slot
    insert_slot_again flow merged s n same known = rw (encode_again fl s.cm merged known, same) refl

    -- A row after an insertion.
    pub row_shape :
        (w : ℕ) (flow merged : Bytes) (j : ℕ) (row : List (Slot fl.F)) (n : ℕ)
        → j < w
        → RowShape w row
        → RowShape w (set row j (insert_slot fl rand b flow merged (slot_at fl row j) n).0)
    row_shape w flow merged j row n h (e, a) =
        let old = All-get_or SlotShape row j (no_slot fl) a (omega arith) in
        (
          omega
              (arith, length-set row j (insert_slot fl rand b flow merged (slot_at fl row j) n).0),
          All-set SlotShape row j _ a (
              rw (insert_slot-cm flow merged (slot_at fl row j) n)
                (encode-IsHll fl (slot_at fl row j).cm merged old)),
        )

    -- The row now holds the observation.
    pub row_seen :
        (w : ℕ) (flow merged : Bytes) (j : ℕ) (row : List (Slot fl.F)) (n : ℕ)
        → j < w
        → RowShape w row
        → Recorded fl
            (slot_at fl (set row j (insert_slot fl rand b flow merged (slot_at fl row j) n).0) j).cm
            merged
    row_seen w flow merged j row n h (e, a) =
        let slot = (insert_slot fl rand b flow merged (slot_at fl row j) n).0 in
        let old = All-get_or SlotShape row j (no_slot fl) a (omega arith) in
        rw
          (
            get_or-set_self row j slot (no_slot fl) (omega arith),
            insert_slot-cm flow merged (slot_at fl row j) n,
          )
          (encode-Recorded fl (slot_at fl row j).cm merged old)

    -- And it keeps what it held.
    pub row_keeps :
        (flow merged e : Bytes) (i j : ℕ) (row : List (Slot fl.F)) (n : ℕ)
        → j < length row
        → Recorded fl (slot_at fl row i).cm e
        → Recorded fl
            (slot_at fl (set row j (insert_slot fl rand b flow merged (slot_at fl row j) n).0) i).cm
            e
    row_keeps flow merged e i j row n h k =
        let slot = (insert_slot fl rand b flow merged (slot_at fl row j) n).0 in
        elim (decide j i) [
          | inl same ↦
              rw
                (
                  sym same,
                  get_or-set_self row j slot (no_slot fl) h,
                  insert_slot-cm flow merged (slot_at fl row j) n,
                )
                (encode-keeps fl (slot_at fl row j).cm e merged (rw same k))
          | inr other ↦ rw (get_or-set_ne row j i slot (no_slot fl) other) k
        ]
