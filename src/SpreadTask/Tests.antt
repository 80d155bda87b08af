-- ===== src/SpreadTask/Tests.antt =====
-- A task with the flow field DstPort and the element field Protocol, after one packet, over the crude
-- numbers that stand for floats.
use go2net_spectra.Base.{
  ℕ, ◌+◌, ◌/◌, ◌==◌, ◌≡◌, refl, arith, ltb, leb, bytes_eq, text, [], ◌∷◌, some, replicate,
}
use go2net_spectra.Packet.{field_kind}
use go2net_spectra.SketchTask.{fields_size, field_byte_size, kind_byte_size}
use go2net_spectra.SketchTask.Arrivals.{Arrival, IsRegular}
use go2net_spectra.HyperLogLog.{Floats}
use go2net_spectra.SpreadTask.{SketchTaskDef, Task, new_task, process_packet}
use go2net_spectra.SpreadTask.Repeats.{processed, repeated_packet_ignored}

abbrev crude : Floats
crude = record {
  F = ℕ;
  zero = 100;
  one = 1;
  point_five = 2;
  one_point_zero_eight = 1;
  minus_one = 0;
  of_uint32 = λ n. n;
  neg = λ x. x;
  add = λ x y. x + y;
  div = λ x y. x / y;
  pow = λ x y. x;
  ceil = λ x. x;
  to_int = λ x. x;
  eq = λ x y. x == y;
  lt = λ x y. ltb x y;
  ge = λ x y. leb y x;
}

abbrev counting : ℕ → ℕ
counting i = i

abbrev cfg : SketchTaskDef crude
cfg = record {
  name = text "t";
  flow_fields = text "DstPort" ∷ [];
  element_fields = text "Protocol" ∷ [];
  width = 2;
  depth = 1;
  count_threshold = 1;
  m = 2;
  size = 3;
  base = 2;
  b = 1;
}

abbrev arrival : Arrival
arrival = record {
  flow_buffer = replicate 37 9;
  elem_buffer = replicate 37 9;
  packet = record {
    timestamp = 5;
    five_tuple = record {
      src_ip = replicate 16 7;
      dst_ip = replicate 16 8;
      src_port = 1234;
      dst_port = 443;
      protocol = 6;
    };
    length = 100;
  };
}

arrival-IsRegular : IsRegular arrival
arrival-IsRegular = record {
  flow_capacity = refl;
  elem_capacity = refl;
  wide = record { src = refl; dst = refl };
}

repeated_packet_ignored_example :
    (t : Task crude) × (processed crude counting (new_task crude counting cfg) (arrival ∷ [])
      ≡ some t)
    × (process_packet crude counting t arrival.flow_buffer arrival.elem_buffer arrival.packet
        ≡ some t)
unfolding fields_size field_byte_size kind_byte_size field_kind bytes_eq
repeated_packet_ignored_example =
    repeated_packet_ignored crude counting counting cfg [] arrival [] arrival refl (omega arith)
      (omega arith) (arrival-IsRegular, tt) arrival-IsRegular refl refl
