-- ===== src/Writers/Tests.antt =====
-- A snapshot with one flow, and a report with one flow by size.
use go2net_spectra.Base.{
  ℕ, ◌<◌, ◌≡◌, ◌⊎◌, refl, Bytes, text, List, [], ◌∷◌, length, none, some, true, false,
}
use go2net_spectra.CountMin.{HeavyRecord}
use go2net_spectra.ExactTask.{SnapshotData, totals}
use go2net_spectra.Writers.{
  Files, SummaryData, write_shards, add_flows, write_gob, Batch, HeavyRow, heavy_row,
  append_hitters, write_hitters,
}
use go2net_spectra.Writers.Exact.{write_gob-totals}
use go2net_spectra.Writers.Sketch.{of_kind, rows_of, write_hitters_by_type}

abbrev snapshot : SnapshotData
snapshot = record {
  task_name = text "t";
  shards =
      []
      ∷ ((
        text "k",
        record {
          key = text "k";
          fields = [];
          start_time = 1;
          end_time = 2;
          byte_count = 300;
          packet_count = 3;
        },
      )
          ∷ [])
      ∷ [];
}

abbrev summary : SummaryData
summary = record {
  task_name = text "t";
  total_flows = 1;
  total_bytes = 300;
  total_packets = 3;
  shards = 2;
}

abbrev files : Files
files = record { makes_directory = true; takes_shard = λ i s. true; takes_summary = λ s. true }

write_gob-totals_example :
    (packets : ℕ) × ((bytes : ℕ) × ((flows : ℕ) × (totals snapshot.shards (0, 0, 0)
          ≡ (packets, bytes, flows))
        × (((flows ≡ 0) × (some summary ≡ none))
            ⊎ ((0 < flows)
                × (some summary
                    ≡ some (record {
                      task_name = snapshot.task_name;
                      total_flows = flows;
                      total_bytes = bytes;
                      total_packets = packets;
                      shards = length snapshot.shards;
                    }))))))
unfolding write_gob write_shards add_flows
write_gob-totals_example = write_gob-totals files snapshot (some summary) refl

abbrev report : HeavyRecord
report = record { size = record { flow = 1 ∷ []; value = 9 } ∷ []; count = [] }

abbrev batch : Batch HeavyRow
batch = record { prepares = true; appends = λ r. true; sends = true }

abbrev decode : Bytes → Bytes
decode b = text "f"

abbrev rows : List HeavyRow
rows = record { task_name = text "t"; flow = text "f"; value = 9; kind = 1 } ∷ []

write_hitters_by_type_example :
    (of_kind 0 rows ≡ [])
    × (of_kind 1 rows ≡ rows_of decode (text "t") 1 report.size)
    × (of_kind 2 rows ≡ [])
unfolding write_hitters append_hitters heavy_row
write_hitters_by_type_example = write_hitters_by_type decode (text "t") batch report false rows refl
