-- ===== src/SuperSpread/Tests.antt =====
-- A small spread sketch, with a crude stand-in for the floats: numbers, of which 0 is -1.
use mathlib.Core.List.{Mem}
use go2net_spectra.Base.{ℕ, ◌+◌, ◌/◌, ◌≤◌, ◌≡◌, ◌↔◌, refl, arith, [], ◌∷◌, ◌==◌, ltb, leb}
use go2net_spectra.Base.Sort.{IsDescending}
use go2net_spectra.CountMin.{HeavyHitter}
use go2net_spectra.HyperLogLog.{Floats}
use go2net_spectra.SuperSpread.{SuperSpread, new_super_spread, insert_flow, heavy_hitters}
use go2net_spectra.SuperSpread.Distinct.{Observation, after, repeated_observation_ignored}
use go2net_spectra.SuperSpread.Cleared.{reset_forgets}
use go2net_spectra.SuperSpread.{query, reset}
use go2net_spectra.SuperSpread.Spreaders.{spreaders_report}
use go2net_spectra.SuperSpread.Counters.{largest, own_counters}

abbrev crude : Floats
crude = record {
  F = ℕ;
  zero = 100;
  one = 1;
  point_five = 2;
  one_point_zero_eight = 1;
  minus_one = 0;
  of_uint32 = λ n. n;
  neg = λ x. x;
  add = λ x y. x + y;
  div = λ x y. x / y;
  pow = λ x y. x;
  ceil = λ x. x;
  to_int = λ x. x;
  eq = λ x y. x == y;
  lt = λ x y. ltb x y;
  ge = λ x y. leb y x;
}

abbrev counting : ℕ → ℕ
counting i = i

abbrev observation : Observation
observation = record { flow = 1 ∷ 2 ∷ []; elem = 9 ∷ []; size = 64 }

abbrev other : Observation
other = record { flow = 3 ∷ 4 ∷ []; elem = 9 ∷ []; size = 64 }

abbrev sketch : SuperSpread ℕ
sketch = new_super_spread crude counting 2 1 1 2 3 2 1 2

repeated_observation_ignored_example :
    insert_flow crude counting
      (after crude counting (sketch, 0) (other ∷ observation ∷ []))
      (1 ∷ 2 ∷ [])
      (9 ∷ [])
      7
    ≡ after crude counting (sketch, 0) (other ∷ observation ∷ [])
repeated_observation_ignored_example =
    repeated_observation_ignored crude counting counting 2 1 1 2 3 2 1 2 (other ∷ []) observation []
      7 refl

spreaders_report_example :
    ((h : HeavyHitter)
      → Mem h (heavy_hitters crude sketch).count ↔ (
          (h.value ≡ largest (own_counters crude sketch.w h.flow sketch.seeds sketch.table))
          × (sketch.threshold ≤ h.value)))
    × IsDescending (λ h. h.value) (heavy_hitters crude sketch).count
unfolding new_super_spread
spreaders_report_example = spreaders_report crude sketch (omega arith)

reset_forgets_example :
    (query crude (reset crude sketch) (1 ∷ 2 ∷ []) ≡ 1)
    × ((heavy_hitters crude (reset crude sketch)).count ≡ [])
reset_forgets_example = reset_forgets crude sketch (1 ∷ 2 ∷ [])
