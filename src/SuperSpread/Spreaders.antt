-- ===== src/SuperSpread/Spreaders.antt =====
-- What `HeavyHitters` reports, and how `Reset` leaves the sketch.
use mathlib.Core.List.{Mem, mem-cons, not-mem-nil}
use mathlib.Core.List.Perm
use mathlib.Core.Logic.Or
use native.Mathlib.Decide.{ℕ_discrete}
use native.Mathlib.Bridge.{le_prop}
use go2net_spectra.Base.{
  true, ◌↔◌, some, bytes_eq→eq, sym, subst, ◌⊎◌, ℕ, zero, suc, ◌≤◌, ◌<◌, ◌≡◌, refl, ap, ◌∙◌, arith,
  Bytes, List, [], ◌∷◌, leb, ltb, Bool-cases, inl, inr, if◌then◌else◌, bytes_eq,
}
use go2net_spectra.Base.Dict.{lookup, insert, lookup-insert}
use go2net_spectra.Base.Sort.{sort_desc, sort_desc-perm, IsDescending, sort_desc-IsDescending}
use go2net_spectra.SuperSpread.Counters.{largest, own_counters, estimate_lem}
use go2net_spectra.CountMin.{HeavyHitter, index}
use go2net_spectra.HyperLogLog.{Floats}
use go2net_spectra.SuperSpread.{
  Slot, SuperSpread, slot_at, no_slot, estimate, spreaders, note_slots, flow_set, heavy_hitters,
}

-- The flow is a key of the dictionary.
abbrev HasKey : Bytes → List (Bytes × ℕ) → Type 0
HasKey flow m = (v : ℕ) × (lookup flow m ≡ some v)

insert-HasKey :
    (flow k : Bytes) (m : List (Bytes × ℕ))
    → (bytes_eq k flow ≡ true) ⊎ HasKey flow m
    → HasKey flow (insert k 1 m)
insert-HasKey flow k m (inl same) = (1, rw (lookup-insert k flow 1 m, same) refl)
insert-HasKey flow k m (inr (v, e)) = elim (Bool-cases (bytes_eq k flow)) [
  | inl same ↦ (1, rw (lookup-insert k flow 1 m, same) refl)
  | inr other ↦ (v, rw (lookup-insert k flow 1 m, other) e)
]

hitter_eq :
    (h : HeavyHitter) (flow : Bytes) (v : ℕ)
    → h.flow ≡ flow
    → h.value ≡ v
    → h ≡ record { flow = flow; value = v }
hitter_eq h flow v a b = ground (arith, a, b)

module _ (fl : Floats) where
  note_slots-keeps :
      (flow : Bytes) (row : List (Slot fl.F)) (m : List (Bytes × ℕ))
      → HasKey flow m
      → HasKey flow (note_slots fl row m)
  unfolding note_slots
  note_slots-keeps flow [] m h = h
  note_slots-keeps flow (s ∷ row) m h = elim (Bool-cases (ltb 0 s.value)) [
    | inl held ↦ rw held (note_slots-keeps flow row _ (insert-HasKey flow s.key m (inr h)))
    | inr free ↦ rw free (note_slots-keeps flow row m h)
  ]

  flow_set-keeps :
      (flow : Bytes) (rows : List (List (Slot fl.F))) (m : List (Bytes × ℕ))
      → HasKey flow m
      → HasKey flow (flow_set fl rows m)
  unfolding flow_set
  flow_set-keeps flow [] m h = h
  flow_set-keeps flow (row ∷ rows) m h =
      flow_set-keeps flow rows (note_slots fl row m) (note_slots-keeps flow row m h)

  -- A held slot with the flow's key is found.
  note_slots-finds :
      (flow : Bytes) (row : List (Slot fl.F)) (j : ℕ) (m : List (Bytes × ℕ))
      → bytes_eq (slot_at fl row j).key flow ≡ true
      → 0 < (slot_at fl row j).value
      → HasKey flow (note_slots fl row m)
  unfolding note_slots no_slot
  note_slots-finds flow [] j m same held = absurd (omega arith)
  note_slots-finds flow (s ∷ row) zero m same held =
      let on : ltb 0 s.value ≡ true = ground (arith, held) in
      rw on (note_slots-keeps flow row _ (insert-HasKey flow s.key m (inl same)))
  note_slots-finds flow (s ∷ row) (suc j) m same held =
      note_slots-finds flow row j (if ltb 0 s.value then insert s.key 1 m else m) same held

  -- An estimate that rises above its start comes from a flow of the set.
  estimate-finds :
      (w : ℕ) (flow : Bytes) (seeds : List ℕ) (rows : List (List (Slot fl.F))) (best : ℕ)
      (m : List (Bytes × ℕ))
      → (best ≡ estimate fl w flow seeds rows best) ⊎ HasKey flow (flow_set fl rows m)
  unfolding estimate flow_set
  estimate-finds w flow [] rows best m = inl refl
  estimate-finds w flow (s ∷ seeds) [] best m = inl refl
  estimate-finds w flow (s ∷ seeds) (row ∷ rows) best m =
      let slot = slot_at fl row (index w flow s) in
      elim (Bool-cases (bytes_eq slot.key flow)) [
        | inr other ↦ rw other (estimate-finds w flow seeds rows best (note_slots fl row m))
        | inl same ↦ elim (Bool-cases (ltb best slot.value)) [
          | inr less ↦ rw (same, less) (estimate-finds w flow seeds rows best (note_slots fl row m))
          | inl more ↦ inr (
              flow_set-keeps flow rows _
                (note_slots-finds flow row (index w flow s) m same (ground (arith, more))))
        ]
      ]

  IsSpreader : SuperSpread fl.F → HeavyHitter → Type 0
  IsSpreader t h = (h.value ≡ estimate fl t.w h.flow t.seeds t.table 0) × (t.threshold ≤ h.value)

  IsSpreader-prop : (t : SuperSpread fl.F) (h : HeavyHitter) → IsProp (IsSpreader t h)
  unfolding IsSpreader
  IsSpreader-prop t h = hlevel (ℕ_discrete, le_prop)

  spreaders_sound :
      (t : SuperSpread fl.F) (m : List (Bytes × ℕ)) (h : HeavyHitter)
      → Mem h (spreaders fl t m)
      → IsSpreader t h
  unfolding spreaders IsSpreader
  spreaders_sound t [] h k = absurd (not-mem-nil k)
  spreaders_sound t ((flow, seen) ∷ m) h k =
      let e = estimate fl t.w flow t.seeds t.table 0 in
      elim (Bool-cases (leb t.threshold e)) [
        | inr under ↦ spreaders_sound t m h (rw under at k)
        | inl over ↦
            Or.elim (IsSpreader-prop t h) (mem-cons.0 (rw over at k))
              (λ same. subst (IsSpreader t) (sym same) (here over)) (spreaders_sound t m h)
      ]
    where
      here :
          leb t.threshold (estimate fl t.w flow t.seeds t.table 0) ≡ true
          → IsSpreader t (record { flow = flow; value = estimate fl t.w flow t.seeds t.table 0 })
      here over = (refl, ground (arith, over))

  spreaders_complete :
      (t : SuperSpread fl.F) (m : List (Bytes × ℕ)) (h : HeavyHitter)
      → HasKey h.flow m
      → IsSpreader t h
      → Mem h (spreaders fl t m)
  unfolding spreaders lookup IsSpreader
  spreaders_complete t [] h (v, e) k = cc e
  spreaders_complete t ((flow, seen) ∷ m) h (v, e) (same, over) =
      elim (Bool-cases (bytes_eq flow h.flow)) [
        | inl here ↦
            let this : flow ≡ h.flow = bytes_eq→eq flow h.flow here in
            let e' : h.value ≡ estimate fl t.w flow t.seeds t.table 0 =
              same ∙ ap (λ x. estimate fl t.w x t.seeds t.table 0) (sym this) in
            let on : leb t.threshold (estimate fl t.w flow t.seeds t.table 0) ≡ true =
              ground (arith, over, e') in
            rw on (mem-cons.1 (Or.inl (hitter_eq h flow _ (sym this) e')))
        | inr other ↦
            let later = spreaders_complete t m h (v, rw other at e) (same, over) in
            elim (Bool-cases (leb t.threshold (estimate fl t.w flow t.seeds t.table 0))) [
              | inl on ↦ rw on (mem-cons.1 (Or.inr later))
              | inr off ↦ rw off later
            ]
      ]

  -- For a positive threshold, as `NewSuperSpread` makes it, `HeavyHitters` reports a flow with a value
  -- exactly when the value is the largest counter that the flow's own slots hold under its key, and
  -- reaches the threshold; and the report is in descending order.
  pub spreaders_report :
      (t : SuperSpread fl.F)
      → 0 < t.threshold
      → ((h : HeavyHitter)
          → Mem h (heavy_hitters fl t).count ↔ (
              (h.value ≡ largest (own_counters fl t.w h.flow t.seeds t.table))
              × (t.threshold ≤ h.value)))
        × IsDescending (λ h. h.value) (heavy_hitters fl t).count
  unfolding heavy_hitters IsSpreader
  spreaders_report t pos = (iff, sort_desc-IsDescending (λ h. h.value) _)
    where
      reported : (h : HeavyHitter) → IsSpreader t h → HasKey h.flow (flow_set fl t.table [])
      reported h (same, over) = elim (estimate-finds t.w h.flow t.seeds t.table 0 []) [
        | inr found ↦ found
        | inl zero' ↦ absurd (omega (arith, zero', same, over, pos))
      ]

      iff :
          (h : HeavyHitter)
          → Mem h (sort_desc (λ x. x.value) (spreaders fl t (flow_set fl t.table []))) ↔ (
              (h.value ≡ largest (own_counters fl t.w h.flow t.seeds t.table))
              × (t.threshold ≤ h.value))
      iff h =
          let sorted = Perm.mem_iff (
            sort_desc-perm (λ (x : HeavyHitter). x.value)
              (spreaders fl t (flow_set fl t.table []))) in
          (
            λ k.
                let (same, over) = spreaders_sound t _ h (sorted.0 k) in
                (same ∙ estimate_lem fl t h.flow, over),
            λ (same, over).
                let k : IsSpreader t h = (same ∙ sym (estimate_lem fl t h.flow), over) in
                sorted.1 (spreaders_complete t _ h (reported h k) k),
          )
