-- ===== src/CountMin/Heavy.antt =====
-- `HeavyHitters` against the table: which flows it reports, with which values, in which order.
use mathlib.Core.List.{Mem, mem-cons, not-mem-nil}
use mathlib.Core.List.Perm
use mathlib.Core.Logic.Or
use native.Mathlib.Decide.{ℕ_discrete}
use native.Mathlib.Bridge.{le_prop}
use go2net_spectra.Base.{
  ℕ, ◌≤◌, ◌<◌, max, ◌≡◌, arith, Bytes, bytes_eq, bytes_eq→eq, bytes_eq_refl, ◌↔◌, List, [], ◌∷◌,
  Bool-cases, inl, inr, Option, none, some, if◌then◌else◌, ltb, leb, true, Option-cases,
}
use go2net_spectra.Base.Dict.{lookup, insert, lookup-insert, UniqueKeys, insert-UniqueKeys}
use go2net_spectra.Base.Sort.{sort_desc, sort_desc-perm, sort_desc-IsDescending, IsDescending}
use go2net_spectra.CountMin.{
  Cell, Bucket, CountMin, HeavyHitter, note_cell, note_row, note_table, over_threshold,
  heavy_hitters,
}

-- The largest counter that the table holds under a fingerprint, 0 if it holds none.
abbrev pub weight : Cell → Bytes → ℕ
weight c f = if bytes_eq c.fp f then c.value else 0

module _ (cell : Bucket → Cell) (f : Bytes) where
  abbrev pub peak_row : List Bucket → ℕ
  peak_row [] = 0
  peak_row (b ∷ row) = max (weight (cell b) f) (peak_row row)

  abbrev pub peak : List (List Bucket) → ℕ
  peak [] = 0
  peak (row ∷ rows) = max (peak_row row) (peak rows)

abbrev value_or_zero : Option ℕ → ℕ
value_or_zero none = 0
value_or_zero (some v) = v

-- What the scan has noted for a flow.
abbrev noted : Bytes → List (Bytes × ℕ) → ℕ
noted f m = value_or_zero (lookup f m)

noted-note_cell :
    (c : Cell) (f : Bytes) (m : List (Bytes × ℕ))
    → noted f (note_cell c m) ≡ max (noted f m) (weight c f)
unfolding note_cell
noted-note_cell c f m = ground (
  arith,
  lookup-insert c.fp f c.value m,
  lookup-insert c.fp f (max (noted c.fp m) c.value) m,
  bytes_eq→eq c.fp f,
)

noted-note_row :
    (cell : Bucket → Cell) (f : Bytes) (row : List Bucket) (m : List (Bytes × ℕ))
    → noted f (note_row cell row m) ≡ max (noted f m) (peak_row cell f row)
unfolding note_row
noted-note_row cell f [] m = omega arith
noted-note_row cell f (b ∷ row) m =
    omega (arith, noted-note_row cell f row (note_cell (cell b) m), noted-note_cell (cell b) f m)

noted-note_table :
    (cell : Bucket → Cell) (f : Bytes) (rows : List (List Bucket)) (m : List (Bytes × ℕ))
    → noted f (note_table cell rows m) ≡ max (noted f m) (peak cell f rows)
unfolding note_table
noted-note_table cell f [] m = omega arith
noted-note_table cell f (row ∷ rows) m =
    omega (arith, noted-note_table cell f rows (note_row cell row m), noted-note_row cell f row m)

-- The map of the scan: one entry for a flow, and no entry of 0.
record IsNotes (m : List (Bytes × ℕ)) : Type 0 where
  unique : UniqueKeys m
  positive : (f : Bytes) (v : ℕ) → lookup f m ≡ some v → 0 < v

insert-IsNotes :
    (k : Bytes) (v : ℕ) (m : List (Bytes × ℕ)) → 0 < v → IsNotes m → IsNotes (insert k v m)
insert-IsNotes k v m h n = record {
  unique = insert-UniqueKeys k v m n.unique;
  positive = λ f w e. ground (arith, lookup-insert k f v m, n.positive f w);
}

note_cell-IsNotes : (c : Cell) (m : List (Bytes × ℕ)) → IsNotes m → IsNotes (note_cell c m)
unfolding note_cell
note_cell-IsNotes c m n = elim (Bool-cases (ltb 0 c.value)) [
  | inr e ↦ rw e n
  | inl e ↦ elim (Option-cases (lookup c.fp m)) [
    | inl o ↦ rw (e, o, note_cell) (insert-IsNotes c.fp c.value m (ground arith) n)
    | inr (cur, o) ↦ rw (e, o, note_cell) (insert-IsNotes c.fp (max cur c.value) m (ground arith) n)
  ]
]

note_row-IsNotes :
    (cell : Bucket → Cell) (row : List Bucket) (m : List (Bytes × ℕ))
    → IsNotes m
    → IsNotes (note_row cell row m)
unfolding note_row
note_row-IsNotes cell [] m n = n
note_row-IsNotes cell (b ∷ row) m n =
    note_row-IsNotes cell row (note_cell (cell b) m) (note_cell-IsNotes (cell b) m n)

note_table-IsNotes :
    (cell : Bucket → Cell) (rows : List (List Bucket)) (m : List (Bytes × ℕ))
    → IsNotes m
    → IsNotes (note_table cell rows m)
unfolding note_table
note_table-IsNotes cell [] m n = n
note_table-IsNotes cell (row ∷ rows) m n =
    note_table-IsNotes cell rows (note_row cell row m) (note_row-IsNotes cell row m n)

nothing-IsNotes : IsNotes []
unfolding lookup
nothing-IsNotes = record { unique = tt; positive = λ f v e. cc e }

-- The entries that pass the threshold, over a map with one entry for each key.
Over : ℕ → List (Bytes × ℕ) → HeavyHitter → Type 0
Over limit m h = (lookup h.flow m ≡ some h.value) × (limit ≤ h.value)

Over-prop : (limit : ℕ) (m : List (Bytes × ℕ)) (h : HeavyHitter) → IsProp (Over limit m h)
unfolding Over
Over-prop limit m h = hlevel (ℕ_discrete, le_prop)

Over-later :
    (limit v : ℕ) (j : Bytes) (m : List (Bytes × ℕ)) (h : HeavyHitter)
    → lookup j m ≡ none
    → Over limit m h
    → Over limit ((j, v) ∷ m) h
unfolding Over lookup
Over-later limit v j m h fresh o = ground (arith, bytes_eq→eq j h.flow)

Over-here :
    (limit v : ℕ) (j : Bytes) (m : List (Bytes × ℕ)) (h : HeavyHitter)
    → leb limit v ≡ true
    → h ≡ record { flow = j; value = v }
    → Over limit ((j, v) ∷ m) h
unfolding Over lookup
Over-here limit v j m h e same = rw same (ground (arith, bytes_eq_refl j))

over_threshold_sound :
    (limit : ℕ) (m : List (Bytes × ℕ)) (h : HeavyHitter)
    → UniqueKeys m
    → Mem h (over_threshold limit m)
    → Over limit m h
unfolding over_threshold
over_threshold_sound limit [] h u k = absurd (not-mem-nil k)
over_threshold_sound limit ((j, v) ∷ m) h u k = elim (Bool-cases (leb limit v)) [
  | inl e ↦
      Or.elim (Over-prop limit ((j, v) ∷ m) h) (mem-cons.0 (rw e at k)) (here e)
        (λ t. Over-later limit v j m h u.0 (over_threshold_sound limit m h u.1 t))
  | inr e ↦ Over-later limit v j m h u.0 (over_threshold_sound limit m h u.1 (rw e at k))
]
  where
    here : leb limit v ≡ true → h ≡ record { flow = j; value = v } → Over limit ((j, v) ∷ m) h
    here e same = Over-here limit v j m h e same

over_threshold_complete :
    (limit : ℕ) (m : List (Bytes × ℕ)) (h : HeavyHitter)
    → Over limit m h
    → Mem h (over_threshold limit m)
unfolding over_threshold Over lookup
over_threshold_complete limit [] h o = cc o.0
over_threshold_complete limit ((j, v) ∷ m) h o = elim (Bool-cases (leb limit v)) [
  | inl e ↦ elim (Bool-cases (bytes_eq j h.flow)) [
    | inl same ↦ rw e (mem-cons.1 (Or.inl (ground (arith, bytes_eq→eq j h.flow))))
    | inr other ↦ rw e (mem-cons.1 (Or.inr (over_threshold_complete limit m h (ground arith))))
  ]
  | inr e ↦ rw e (over_threshold_complete limit m h (ground arith))
]

-- The entry that a flow has is its peak.
Over-iff-peak :
    (cell : Bucket → Cell) (limit : ℕ) (rows : List (List Bucket)) (h : HeavyHitter)
    → Over limit (note_table cell rows []) h
      ↔ ((h.value ≡ peak cell h.flow rows) × (0 < h.value) × (limit ≤ h.value))
unfolding Over lookup
Over-iff-peak cell limit rows h =
    let n = note_table-IsNotes cell rows [] nothing-IsNotes in
    let e = noted-note_table cell h.flow rows [] in
    (
      λ o. ground (arith, e, n.positive h.flow h.value o.0),
      λ k. ground (arith, e, Option-cases (lookup h.flow (note_table cell rows []))),
    )

abbrev Reports : (Bucket → Cell) → ℕ → List (List Bucket) → List HeavyHitter → Type 0
Reports cell limit rows found =
    (h : HeavyHitter)
    → Mem h found ↔ ((h.value ≡ peak cell h.flow rows) × (0 < h.value) × (limit ≤ h.value))

-- What one of the two lists of a heavy record holds.
over_threshold-Reports :
    (cell : Bucket → Cell) (limit : ℕ) (rows : List (List Bucket))
    → Reports cell limit rows
        (sort_desc (λ x. x.value) (over_threshold limit (note_table cell rows [])))
over_threshold-Reports cell limit rows h =
    let m = note_table cell rows [] in
    let n = note_table-IsNotes cell rows [] nothing-IsNotes in
    let sorted =
      Perm.mem_iff (sort_desc-perm (λ (x : HeavyHitter). x.value) (over_threshold limit m)) in
    let iff = Over-iff-peak cell limit rows h in
    (
      λ k. iff.0 (over_threshold_sound limit m h n.unique (sorted.0 k)),
      λ k. sorted.1 (over_threshold_complete limit m h (iff.1 k)),
    )

-- `HeavyHitters` reports a flow by size exactly with the largest positive size counter that any
-- bucket holds under its fingerprint, if that reaches the size threshold, and by count likewise.
pub heavy_hitters_report :
    (t : CountMin) (h : HeavyHitter)
    → (Mem h (heavy_hitters t).size ↔ (
        (h.value ≡ peak (λ b. b.size) h.flow t.table)
        × (0 < h.value)
        × (t.size_thereshold ≤ h.value)))
      × (Mem h (heavy_hitters t).count ↔ (
          (h.value ≡ peak (λ b. b.count) h.flow t.table)
          × (0 < h.value)
          × (t.count_thereshold ≤ h.value)))
unfolding heavy_hitters
heavy_hitters_report t h = (
  over_threshold-Reports (λ b. b.size) t.size_thereshold t.table h,
  over_threshold-Reports (λ b. b.count) t.count_thereshold t.table h,
)

-- Both lists are in descending order of their values.
pub heavy_hitters-IsDescending :
    (t : CountMin)
    → IsDescending (λ h. h.value) (heavy_hitters t).size
      × IsDescending (λ h. h.value) (heavy_hitters t).count
unfolding heavy_hitters
heavy_hitters-IsDescending t =
    (sort_desc-IsDescending (λ h. h.value) _, sort_desc-IsDescending (λ h. h.value) _)
