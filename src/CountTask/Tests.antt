-- ===== src/CountTask/Tests.antt =====
-- A task with the flow field DstPort and the element field Protocol, after two packets.
use go2net_spectra.Base.{
  ℕ, ◌/◌, ◌%◌, ◌^◌, ◌≤◌, ◌≡◌, refl, arith, bytes_eq, text, List, [], ◌∷◌, map, some, replicate,
}
use go2net_spectra.Packet.{field_kind}
use go2net_spectra.SketchTask.{fields_size, field_byte_size, kind_byte_size}
use go2net_spectra.CountMin.History.{occurrences, total_size}
use go2net_spectra.CountTask.{SketchTaskDef, Task, new_task, task_query}
use go2net_spectra.SketchTask.Arrivals.{Arrival, IsRegular}
use go2net_spectra.CountTask.Counts.{processed, observation, processed_never_overestimates}

abbrev counting : ℕ → ℕ
counting i = i

abbrev cfg : SketchTaskDef
cfg = record {
  name = text "t";
  flow_fields = text "DstPort" ∷ [];
  element_fields = text "Protocol" ∷ [];
  width = 4;
  depth = 2;
  size_threshold = 1;
  count_threshold = 1;
}

abbrev arrival : Arrival
arrival = record {
  flow_buffer = replicate 37 9;
  elem_buffer = replicate 37 9;
  packet = record {
    timestamp = 5;
    five_tuple = record {
      src_ip = replicate 16 7;
      dst_ip = replicate 16 8;
      src_port = 1234;
      dst_port = 443;
      protocol = 6;
    };
    length = 100;
  };
}

arrival-IsRegular : IsRegular arrival
arrival-IsRegular = record {
  flow_capacity = refl;
  elem_capacity = refl;
  wide = record { src = refl; dst = refl };
}

abbrev past : List Arrival
past = arrival ∷ arrival ∷ []

processed_never_overestimates_example :
    (t : Task) × (processed (new_task counting cfg) past ≡ some t)
    × (task_query t (1 ∷ 187 ∷ []) / 2 ^ 32
        ≤ occurrences (1 ∷ 187 ∷ []) (map (observation cfg) past))
    × (task_query t (1 ∷ 187 ∷ []) % 2 ^ 32
        ≤ total_size (1 ∷ 187 ∷ []) (map (observation cfg) past))
unfolding fields_size field_byte_size kind_byte_size field_kind bytes_eq
processed_never_overestimates_example =
    processed_never_overestimates counting cfg past (1 ∷ 187 ∷ []) (omega arith) (omega arith)
      (arrival-IsRegular, (arrival-IsRegular, tt))
