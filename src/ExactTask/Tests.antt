-- ===== src/ExactTask/Tests.antt =====
-- A task with the field DstPort and three shards, after two packets.
use go2net_spectra.Base.Dict.{insert}
use go2net_spectra.Base.{
  bytes_eq, join, itoa, ℕ, ◌+◌, ◌*◌, ◌%◌, ◌^◌, ◌≡◌, refl, arith, Bytes, text, List, [], ◌∷◌, some,
  length, replicate,
}
use go2net_spectra.Packet.{FiveTuple, PacketInfo, field_kind}
use go2net_spectra.SketchTask.Layout.{key_bytes}
use go2net_spectra.SketchTask.RoundTrip.{InRange}
use go2net_spectra.ExactTask.{num, key_part, key_parts, new_task, query, generate_key_and_fields}
use go2net_spectra.ExactTask.Shards.{flow_of}
use go2net_spectra.ExactTask.Aggregate.{after, matching, total_length, record_of, flow_of-after}
use go2net_spectra.ExactTask.{reset, totals}
use go2net_spectra.ExactTask.Restart.{flow_of_restarted}
use go2net_spectra.ExactTask.Lookup.{query-after}
use go2net_spectra.ExactTask.Totals.{keyed, totals-after}

abbrev show_ip : Bytes → Bytes
show_ip b = text "ip"

-- Stands for the hash that picks a shard.
abbrev count_bytes : Bytes → ℕ
count_bytes b = length b

abbrev tuple : FiveTuple
tuple = record {
  src_ip = replicate 16 7;
  dst_ip = replicate 16 8;
  src_port = 1234;
  dst_port = 443;
  protocol = 6;
}

tuple-InRange : InRange tuple
tuple-InRange = record {
  wide = record { src = refl; dst = refl };
  src = omega arith;
  dst = omega arith;
  proto = omega arith;
}

abbrev packet : PacketInfo
packet = record { timestamp = 5; five_tuple = tuple; length = 100 }

abbrev past : List PacketInfo
past = packet ∷ packet ∷ []

abbrev fields : List Bytes
fields = text "DstPort" ∷ []

flow_of-after_example :
    flow_of show_ip count_bytes
      (after show_ip count_bytes (new_task (text "t") fields 3) past)
      (text "443")
    ≡ record_of show_ip fields (text "443") (matching show_ip fields (text "443") past)
flow_of-after_example = flow_of-after show_ip count_bytes (text "t") fields 3 past (text "443")

makes_key :
    generate_key_and_fields show_ip fields tuple ≡ some ((text "DstPort", num 443) ∷ [], text "443")
unfolding generate_key_and_fields key_parts key_part field_kind bytes_eq join itoa insert
makes_key = refl

query-after_example :
    query show_ip count_bytes
      (after show_ip count_bytes (new_task (text "t") fields 3) past)
      (key_bytes fields tuple)
    ≡ some (
        length (matching show_ip fields (text "443") past) * 2 ^ 32
        + total_length (matching show_ip fields (text "443") past))
unfolding generate_key_and_fields key_parts key_part field_kind bytes_eq join itoa insert
query-after_example =
    query-after show_ip count_bytes (text "t") fields 3 past tuple ((text "DstPort", num 443) ∷ [])
      (text "443") tuple-InRange makes_key (omega arith) (omega arith)

flow_of_restarted_example :
    flow_of show_ip count_bytes
      (after show_ip count_bytes
        (reset (after show_ip count_bytes (new_task (text "t") fields 3) past))
        (packet ∷ []))
      (text "443")
    ≡ record_of show_ip fields (text "443") (matching show_ip fields (text "443") (packet ∷ []))
flow_of_restarted_example =
    flow_of_restarted show_ip count_bytes (text "t") fields 3 past (packet ∷ []) (text "443")

totals-after_example :
    (flows : ℕ) × (totals
        (after show_ip count_bytes (new_task (text "t") fields 3) past).shards
        (0, 0, 0)
      ≡ (
        length (keyed show_ip fields past) % 2 ^ 64,
        total_length (keyed show_ip fields past) % 2 ^ 64,
        flows,
      ))
totals-after_example = totals-after show_ip count_bytes (text "t") fields 3 past
