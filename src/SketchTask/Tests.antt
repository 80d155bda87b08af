-- ===== src/SketchTask/Tests.antt =====
-- Flow keys of a task with the fields SrcIP and DstPort, for one packet.
use go2net_spectra.Base.{
  ◌≡◌, refl, arith, Bytes, bytes_eq, text, List, [], ◌∷◌, ◌++◌, some, drop, replicate, join,
}
use go2net_spectra.Packet.{FiveTuple, field_kind}
use go2net_spectra.SketchTask.{
  ◌>>=◌, fields_size, field_byte_size, kind_byte_size, generate_flow_and_elem, decode_flow,
  encode_fields,
}
use go2net_spectra.SketchTask.RoundTrip.{
  InRange, shown_fields, decode-generate, short_address_keeps_buffer,
}

-- Stands for the printing of an address.
abbrev show_ip : Bytes → Bytes
show_ip b = text "ip"

abbrev tuple : FiveTuple
tuple = record {
  src_ip = replicate 16 7;
  dst_ip = replicate 16 8;
  src_port = 1234;
  dst_port = 443;
  protocol = 6;
}

tuple-InRange : InRange tuple
tuple-InRange = record {
  wide = record { src = refl; dst = refl };
  src = omega arith;
  dst = omega arith;
  proto = omega arith;
}

abbrev flow_fields : List Bytes
flow_fields = text "SrcIP" ∷ text "DstPort" ∷ []

abbrev element_fields : List Bytes
element_fields = text "Protocol" ∷ []

decode-generate_example :
    (generate_flow_and_elem flow_fields element_fields (replicate 18 9) (replicate 1 9) tuple
      >>= λ keys. decode_flow show_ip keys.0 flow_fields)
    ≡ some (join (shown_fields show_ip flow_fields tuple) (text " "))
unfolding fields_size field_byte_size kind_byte_size field_kind bytes_eq
decode-generate_example =
    decode-generate show_ip flow_fields element_fields (replicate 18 9) (replicate 1 9) tuple
      tuple-InRange refl refl

short_address_keeps_buffer_example :
    encode_fields (replicate 16 9) 0 (text "SrcIP" ∷ []) (record tuple { src_ip = replicate 4 1 })
    ≡ some (replicate 4 1 ++ drop 4 (replicate 16 9))
short_address_keeps_buffer_example =
    short_address_keeps_buffer (replicate 16 9) (record tuple { src_ip = replicate 4 1 })
      (omega arith) refl
