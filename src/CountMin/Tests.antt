-- ===== src/CountMin/Tests.antt =====
-- The sketch on three observations of two flows.
use mathlib.Core.List.{Mem}
use go2net_spectra.Base.{
  ℕ, ◌+◌, ◌*◌, ◌/◌, ◌%◌, ◌^◌, ◌≤◌, ◌<◌, ◌≡◌, ◌↔◌, refl, arith, Bytes, List, [], ◌∷◌, All, copy,
  bytes_eq,
}
use go2net_spectra.Murmur.{murmur_hash3}
use go2net_spectra.CountMin.{CountMin, insert_flow, index, new_count_min, query, heavy_hitters}
use go2net_spectra.CountMin.History.{Observation, used, Fits, occurrences, total_size, rivals}
use go2net_spectra.CountMin.Upper.{query_never_overestimates}
use go2net_spectra.CountMin.Majority.{query_lower_bound}
use go2net_spectra.CountMin.Found.{heavy_flow_reported}
use go2net_spectra.CountMin.Heavy.{peak, heavy_hitters_report}

abbrev counting : ℕ → ℕ
counting i = i

abbrev flow_a : Bytes
flow_a = 1 ∷ 2 ∷ []

abbrev flow_b : Bytes
flow_b = 3 ∷ 4 ∷ []

abbrev past : List Observation
past =
    record { flow = flow_a; elem = []; size = 100 }
    ∷ record { flow = flow_b; elem = []; size = 60 }
    ∷ record { flow = flow_a; elem = []; size = 50 }
    ∷ []

past-Fits : All (Fits 2) past
past-Fits = omega arith

abbrev sketch : CountMin
sketch = used counting 4 2 1 1 2 past

query_runs : query sketch flow_a ≡ 2 * 2 ^ 32 + 150
unfolding query new_count_min insert_flow index murmur_hash3 copy bytes_eq
query_runs = refl

heavy_flow_reported_example :
    (v : ℕ) × Mem (record { flow = flow_a; value = v }) (heavy_hitters sketch).count
    × (v ≤ occurrences flow_a past)
    × (occurrences flow_a past ≤ v + rivals sketch.w 0 flow_a past)
unfolding new_count_min insert_flow index murmur_hash3 bytes_eq
heavy_flow_reported_example =
    heavy_flow_reported counting 4 2 1 1 2 past flow_a 0 0 past-Fits (omega arith) refl
      (omega arith) (omega arith)

query_lower_bound_example :
    All
      (λ s. occurrences flow_a past ≤ query sketch flow_a / 2 ^ 32 + rivals sketch.w s flow_a past)
      sketch.seed
query_lower_bound_example = query_lower_bound counting 4 2 1 1 2 past flow_a past-Fits (omega arith)

query_never_overestimates_example :
    (query sketch flow_a / 2 ^ 32 ≤ occurrences flow_a past)
    × (query sketch flow_a % 2 ^ 32 ≤ total_size flow_a past)
query_never_overestimates_example =
    query_never_overestimates counting 4 2 1 1 2 past flow_a past-Fits

heavy_hitters_report_example :
    (Mem (record { flow = flow_a; value = 2 }) (heavy_hitters sketch).size
      ↔ ((2 ≡ peak (λ b. b.size) flow_a sketch.table) × (0 < 2) × (sketch.size_thereshold ≤ 2)))
    × (Mem (record { flow = flow_a; value = 2 }) (heavy_hitters sketch).count
        ↔ ((2 ≡ peak (λ b. b.count) flow_a sketch.table) × (0 < 2) × (sketch.count_thereshold ≤ 2)))
heavy_hitters_report_example = heavy_hitters_report sketch (record { flow = flow_a; value = 2 })
