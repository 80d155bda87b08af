-- ===== src/CountMin/Shared/Tests.antt =====
-- A cell of two-byte flows.
use go2net_spectra.Base.{◌+◌, ◌≡◌, refl, arith, Bytes, [], ◌∷◌}
use go2net_spectra.CountMin.{Cell, update_count}
use go2net_spectra.CountMin.Shared.{at_load, at_compare, finished, Shared, step, Reach, here, next}
use go2net_spectra.CountMin.Shared.Own.{waiting, own_flow_exact, alone_is_update_count}
use go2net_spectra.CountMin.Shared.Raced.{raced_cell_overcounts}

abbrev flow : Bytes
flow = 1 ∷ 2 ∷ []

abbrev other : Bytes
other = 3 ∷ 4 ∷ []

abbrev cell : Cell
cell = record { fp = flow; value = 5 }

abbrev loaded : Shared
loaded = record { cell = cell; threads = (flow, at_compare 5) ∷ (flow, at_load) ∷ [] }

own_flow_exact_example :
    (loaded.cell.fp ≡ flow) × (loaded.cell.value + waiting loaded.threads ≡ 5 + 2)
unfolding step
own_flow_exact_example = own_flow_exact cell 2 loaded (omega arith) (omega arith) (next here 0 refl)

alone_is_update_count_example :
    Reach
      (record { cell = cell; threads = (other, at_load) ∷ [] })
      (record { cell = update_count other cell; threads = (other, finished) ∷ [] })
alone_is_update_count_example = alone_is_update_count other cell

raced_cell_overcounts_example :
    Reach
      (record {
        cell = record { fp = flow; value = 0 };
        threads = (other, at_load) ∷ (flow, at_load) ∷ [];
      })
      (record {
        cell = record { fp = other; value = 2 };
        threads = (other, finished) ∷ (flow, finished) ∷ [];
      })
raced_cell_overcounts_example = raced_cell_overcounts flow other refl
