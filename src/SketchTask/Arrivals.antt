-- ===== src/SketchTask/Arrivals.antt =====
-- Packets with the buffers that the pools hand out for them, and the keys that they get.
use go2net_spectra.Base.{
  ℕ, ◌≤◌, ◌≡◌, refl, arith, Bytes, List, [], ◌∷◌, some, length, length-append, take, length-take,
}
use go2net_spectra.Packet.{FiveTuple, PacketInfo, field_kind}
use go2net_spectra.Murmur.{u32}
use go2net_spectra.SketchTask.{
  ◌>>=◌, fields_size, field_byte_size, slice, max_field_size, packet_keys,
}
use go2net_spectra.SketchTask.Layout.{
  IsWide, kind_bytes, key_bytes, length-kind_bytes, generate_flow_and_elem_lem,
}

-- A packet with the buffers that the pools hand out for it.
pub record Arrival : Type 0 where
  pub flow_buffer : Bytes
  pub elem_buffer : Bytes
  pub packet : PacketInfo

-- The buffers have the capacity of the pools, and the addresses 16 bytes.
pub record IsRegular (a : Arrival) : Type 0 where
  pub flow_capacity : length a.flow_buffer ≡ max_field_size
  pub elem_capacity : length a.elem_buffer ≡ max_field_size
  pub wide : IsWide a.packet.five_tuple

slice_whole : (b : Bytes) (n : ℕ) → n ≤ length b → slice b 0 n ≡ some (take n b)
unfolding slice
slice_whole b n h = ground (arith, h)

pub length-key_bytes :
    (fs : List Bytes) (ft : FiveTuple) → IsWide ft → length (key_bytes fs ft) ≡ fields_size fs
unfolding fields_size field_byte_size
length-key_bytes [] ft w = refl
length-key_bytes (f ∷ fs) ft w = omega (
  arith,
  length-append {0} (kind_bytes (field_kind f) ft) (key_bytes fs ft),
  length-kind_bytes (field_kind f) ft w,
  length-key_bytes fs ft w,
)

-- Fields that fit the pooled buffers are written whole, whatever the buffers held.
pub packet_keys_lem :
    (flow_fields element_fields : List Bytes) (a : Arrival)
    → fields_size flow_fields ≤ max_field_size
    → fields_size element_fields ≤ max_field_size
    → IsRegular a
    → packet_keys flow_fields element_fields
        (u32 (fields_size flow_fields))
        (u32 (fields_size element_fields))
        a.flow_buffer
        a.elem_buffer
        a.packet.five_tuple
      ≡ some
          (key_bytes flow_fields a.packet.five_tuple, key_bytes element_fields a.packet.five_tuple)
unfolding packet_keys
packet_keys_lem flow_fields element_fields a hf he r =
    let nf : u32 (fields_size flow_fields) ≡ fields_size flow_fields = omega arith in
    let ne : u32 (fields_size element_fields) ≡ fields_size element_fields = omega arith in
    let f = take (u32 (fields_size flow_fields)) a.flow_buffer in
    let e = take (u32 (fields_size element_fields)) a.elem_buffer in
    rw
      (
        slice_whole a.flow_buffer (u32 (fields_size flow_fields)) (omega (arith, r.flow_capacity)),
        ◌>>=◌,
        slice_whole a.elem_buffer (u32 (fields_size element_fields))
            (omega (arith, r.elem_capacity)),
        ◌>>=◌,
      )
      (generate_flow_and_elem_lem flow_fields element_fields f e a.packet.five_tuple r.wide
        (omega
          (arith, length-take {0} (u32 (fields_size flow_fields)) a.flow_buffer, r.flow_capacity))
        (omega (
          arith,
          length-take {0} (u32 (fields_size element_fields)) a.elem_buffer,
          r.elem_capacity,
        )))
