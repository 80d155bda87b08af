-- ===== src/SuperSpread/Cleared.antt =====
-- What `Reset` leaves of a spread sketch: no flow is known any more.
use go2net_spectra.Base.{
  ℕ, zero, suc, ◌≡◌, refl, ap, ◌∙◌, Bytes, List, [], ◌∷◌, map, bytes_eq, Bool-cases, inl, inr,
}
use go2net_spectra.Base.Sort.{sort_desc}
use go2net_spectra.CountMin.{index}
use go2net_spectra.HyperLogLog.{Floats}
use go2net_spectra.SuperSpread.{
  Slot, SuperSpread, slot_at, no_slot, estimate, query, note_slots, flow_set, spreaders,
  heavy_hitters, clear_slot, reset,
}

module _ (fl : Floats) where
  cleared_value :
      (row : List (Slot fl.F)) (j : ℕ) → (slot_at fl (map (clear_slot fl) row) j).value ≡ 0
  unfolding clear_slot no_slot
  cleared_value [] j = refl
  cleared_value (s ∷ row) zero = refl
  cleared_value (s ∷ row) (suc j) = cleared_value row j

  estimate_cleared :
      (w : ℕ) (flow : Bytes) (seeds : List ℕ) (rows : List (List (Slot fl.F)))
      → estimate fl w flow seeds (map (map (clear_slot fl)) rows) 0 ≡ 0
  unfolding estimate
  estimate_cleared w flow [] rows = refl
  estimate_cleared w flow (s ∷ seeds) [] = refl
  estimate_cleared w flow (s ∷ seeds) (row ∷ rows) =
      rw (cleared_value row (index w flow s))
        (elim (Bool-cases
          (bytes_eq (slot_at fl (map (clear_slot fl) row) (index w flow s)).key flow)) [
            | inl same ↦ rw same (estimate_cleared w flow seeds rows)
            | inr other ↦ rw other (estimate_cleared w flow seeds rows)
          ])

  note_slots_cleared :
      (row : List (Slot fl.F)) (m : List (Bytes × ℕ))
      → note_slots fl (map (clear_slot fl) row) m ≡ m
  unfolding note_slots clear_slot
  note_slots_cleared [] m = refl
  note_slots_cleared (s ∷ row) m = note_slots_cleared row m

  flow_set_cleared :
      (rows : List (List (Slot fl.F))) (m : List (Bytes × ℕ))
      → flow_set fl (map (map (clear_slot fl)) rows) m ≡ m
  unfolding flow_set
  flow_set_cleared [] m = refl
  flow_set_cleared (row ∷ rows) m =
      ap (flow_set fl (map (map (clear_slot fl)) rows)) (note_slots_cleared row m)
      ∙ flow_set_cleared rows m

  -- After `Reset`, whatever the sketch held, `Query` answers 1 for every flow, its answer for a flow
  -- that it does not know, and `HeavyHitters` reports nothing.
  pub reset_forgets :
      (t : SuperSpread fl.F) (flow : Bytes)
      → (query fl (reset fl t) flow ≡ 1) × ((heavy_hitters fl (reset fl t)).count ≡ [])
  unfolding query reset heavy_hitters spreaders sort_desc
  reset_forgets t flow =
      (rw (estimate_cleared t.w flow t.seeds t.table) refl, rw (flow_set_cleared t.table []) refl)
