-- ===== src/SuperSpread/Counters.antt =====
-- The counters behind the estimate of a flow, in `Query` and `HeavyHitters`.
use go2net_spectra.Base.{
  ℕ, ◌≡◌, arith, Bytes, List, [], ◌∷◌, ltb, Bool-cases, inl, inr, if◌then◌else◌, bytes_eq, max,
}
use go2net_spectra.CountMin.{index}
use go2net_spectra.HyperLogLog.{Floats}
use go2net_spectra.SuperSpread.{Slot, SuperSpread, slot_at, estimate}

-- The largest of some numbers, 0 if there are none.
abbrev pub largest : List ℕ → ℕ
largest [] = 0
largest (x ∷ xs) = max x (largest xs)

module _ (fl : Floats) where
  -- The counters that the flow's own slots, one in each row, hold under its key.
  abbrev pub own_counters : ℕ → Bytes → List ℕ → List (List (Slot fl.F)) → List ℕ
  own_counters w flow [] rows = []
  own_counters w flow (s ∷ seeds) [] = []
  own_counters w flow (s ∷ seeds) (row ∷ rows) =
      let slot = slot_at fl row (index w flow s) in
      let rest = own_counters w flow seeds rows in
      if bytes_eq slot.key flow then slot.value ∷ rest else rest

  -- The code's running maximum is the largest of them.
  estimate-largest :
      (w : ℕ) (flow : Bytes) (seeds : List ℕ) (rows : List (List (Slot fl.F))) (best : ℕ)
      → estimate fl w flow seeds rows best ≡ max best (largest (own_counters w flow seeds rows))
  unfolding estimate
  estimate-largest w flow [] rows best = omega arith
  estimate-largest w flow (s ∷ seeds) [] best = omega arith
  estimate-largest w flow (s ∷ seeds) (row ∷ rows) best =
      let slot = slot_at fl row (index w flow s) in
      elim (Bool-cases (bytes_eq slot.key flow)) [
        | inr other ↦ rw other (estimate-largest w flow seeds rows best)
        | inl same ↦ elim (Bool-cases (ltb best slot.value)) [
          | inr less ↦
              let ih = estimate-largest w flow seeds rows best in
              rw (same, less) (ground (arith, ih, less))
          | inl more ↦
              let ih = estimate-largest w flow seeds rows slot.value in
              rw (same, more) (ground (arith, ih, more))
        ]
      ]

  pub estimate_lem :
      (t : SuperSpread fl.F) (flow : Bytes)
      → estimate fl t.w flow t.seeds t.table 0 ≡ largest (own_counters t.w flow t.seeds t.table)
  estimate_lem t flow = omega (arith, estimate-largest t.w flow t.seeds t.table 0)
