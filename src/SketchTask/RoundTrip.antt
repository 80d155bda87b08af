-- ===== src/SketchTask/RoundTrip.antt =====
-- `DecodeFlow` reads what `generateFlowAndElem` wrote, and what it writes for short addresses.
use go2net_spectra.Base.{
  ℕ, ◌+◌, ◌^◌, ◌≤◌, ◌<◌, ◌≡◌, refl, ap, ap₂, sym, ◌∙◌, arith, Bytes, text, bytes_eq, join, itoa,
  List, [], ◌∷◌, ◌++◌, append_assoc, Option, some, length, length-append, drop, take-append,
  drop-append, get_elem?,
}
use go2net_spectra.Base.Bits.{bit_or-shifted}
use go2net_spectra.Packet.{
  FiveTuple, FieldKind, field_kind, src_ip, dst_ip, src_port, dst_port, protocol, unknown,
}
use go2net_spectra.SketchTask.{
  ◌>>=◌, kind_byte_size, fields_size, slice, uint16, high_byte, low_byte, encode_fields,
  generate_flow_and_elem, decode_kind, decode_parts, decode_flow,
}
use go2net_spectra.SketchTask.Layout.{
  IsWide, kind_bytes, key_bytes, length-kind_bytes, copy_at-append, generate_flow_and_elem_lem,
}

-- The fields of the tuple are within their Go types.
pub record InRange (ft : FiveTuple) : Type 0 where
  pub wide : IsWide ft
  pub src : ft.src_port < 2 ^ 16
  pub dst : ft.dst_port < 2 ^ 16
  pub proto : ft.protocol < 2 ^ 8

pub slice-append :
    (pre mid post : Bytes) (n : ℕ)
    → length mid ≡ n
    → slice (pre ++ (mid ++ post)) (length pre) n ≡ some mid
unfolding slice
slice-append pre mid post n e = rw (← e) (
    ground (
      arith,
      length-append pre (mid ++ post),
      length-append mid post,
      drop-append pre (mid ++ post),
      take-append mid post,
    ))

uint16-bytes : (p : ℕ) → p < 2 ^ 16 → uint16 (high_byte p ∷ low_byte p ∷ []) ≡ some p
unfolding uint16
uint16-bytes p h = ap some (bit_or-shifted 8 (high_byte p) (low_byte p) (omega arith) ∙ omega arith)

pub get_elem?-seam :
    (pre : Bytes) (x : ℕ) (post : Bytes) → get_elem? (pre ++ x ∷ post) (length pre) ≡ some x
get_elem?-seam [] x post = refl
get_elem?-seam (y ∷ pre) x post = get_elem?-seam pre x post

module _ (ip_string : Bytes → Bytes) where
  -- How a field of the tuple reads.
  abbrev pub shown : FieldKind → FiveTuple → List Bytes
  shown src_ip ft = ip_string ft.src_ip ∷ []
  shown dst_ip ft = ip_string ft.dst_ip ∷ []
  shown src_port ft = itoa ft.src_port ∷ []
  shown dst_port ft = itoa ft.dst_port ∷ []
  shown protocol ft = itoa ft.protocol ∷ []
  shown unknown ft = []

  abbrev pub shown_fields : List Bytes → FiveTuple → List Bytes
  shown_fields [] ft = []
  shown_fields (f ∷ fs) ft = shown (field_kind f) ft ++ shown_fields fs ft

  decode_kind-append :
      (pre post : Bytes) (k : FieldKind) (ft : FiveTuple)
      → InRange ft
      → decode_kind ip_string (pre ++ (kind_bytes k ft ++ post)) (length pre) k
        ≡ some (shown k ft, length pre + kind_byte_size k)
  unfolding decode_kind kind_byte_size
  decode_kind-append pre post src_ip ft r =
      rw (slice-append pre ft.src_ip post 16 r.wide.src, ◌>>=◌)
  decode_kind-append pre post dst_ip ft r =
      rw (slice-append pre ft.dst_ip post 16 r.wide.dst, ◌>>=◌)
  decode_kind-append pre post src_port ft r =
      rw (slice-append pre (kind_bytes src_port ft) post 2 refl, ◌>>=◌)
        (ap (λ (o : Option ℕ). o >>= λ p. some (itoa p ∷ [], length pre + 2))
          (uint16-bytes ft.src_port r.src))
  decode_kind-append pre post dst_port ft r =
      rw (slice-append pre (kind_bytes dst_port ft) post 2 refl, ◌>>=◌)
        (ap (λ (o : Option ℕ). o >>= λ p. some (itoa p ∷ [], length pre + 2))
          (uint16-bytes ft.dst_port r.dst))
  decode_kind-append pre post protocol ft r =
      rw (get_elem?-seam pre (low_byte ft.protocol) post, ◌>>=◌)
        (ap (λ n. some (itoa n ∷ [], length pre + 1)) (omega arith))
  decode_kind-append pre post unknown ft r = ap (λ n. some ([], n)) (omega arith)

  decode_parts-cons :
      (flow : Bytes) (offset : ℕ) (f : Bytes) (fs : List Bytes) {part : List Bytes} {next : ℕ}
      {rest : List Bytes}
      → decode_kind ip_string flow offset (field_kind f) ≡ some (part, next)
      → decode_parts ip_string flow next fs ≡ some rest
      → decode_parts ip_string flow offset (f ∷ fs) ≡ some (part ++ rest)
  unfolding decode_parts
  decode_parts-cons flow offset f fs here there = ground (arith, here, there)

  decode_parts-append :
      (pre : Bytes) (fs : List Bytes) (ft : FiveTuple)
      → InRange ft
      → decode_parts ip_string (pre ++ key_bytes fs ft) (length pre) fs ≡ some (shown_fields fs ft)
  decode_parts-append pre [] ft r = unfold decode_parts in refl
  decode_parts-append pre (f ∷ fs) ft r =
      let k = field_kind f in
      let here = kind_bytes k ft in
      let tail = key_bytes fs ft in
      let moved : decode_parts ip_string (pre ++ (here ++ tail)) (length pre + kind_byte_size k) fs
          ≡ decode_parts ip_string (pre ++ here ++ tail) (length (pre ++ here)) fs =
        ap₂ (λ b i. decode_parts ip_string b i fs) (sym (append_assoc pre here tail))
          (omega (arith, length-append pre here, length-kind_bytes k ft r.wide)) in
      decode_parts-cons (pre ++ (here ++ tail)) (length pre) f fs
        (decode_kind-append pre tail k ft r) (moved ∙ decode_parts-append (pre ++ here) fs ft r)

  -- For a tuple within its Go types, with addresses of 16 bytes, the flow key that a packet gets in
  -- buffers of the configured sizes decodes to the packet's own fields, joined by spaces.
  pub decode-generate :
      (flow_fields element_fields : List Bytes) (flow elem : Bytes) (ft : FiveTuple)
      → InRange ft
      → length flow ≡ fields_size flow_fields
      → length elem ≡ fields_size element_fields
      → (generate_flow_and_elem flow_fields element_fields flow elem ft >>= λ keys.
          decode_flow ip_string keys.0 flow_fields)
        ≡ some (join (shown_fields flow_fields ft) (text " "))
  unfolding decode_flow
  decode-generate ffs efs flow elem ft r hf he =
      rw (generate_flow_and_elem_lem ffs efs flow elem ft r.wide hf he, ◌>>=◌)
        (rw (decode_parts-append [] ffs ft r, ◌>>=◌))

-- A source address shorter than 16 bytes, such as one of 4: the key ends in bytes that the buffer
-- held before.
pub short_address_keeps_buffer :
    (buf : Bytes) (ft : FiveTuple)
    → length ft.src_ip ≤ 16
    → length buf ≡ 16
    → encode_fields buf 0 (text "SrcIP" ∷ []) ft ≡ some (ft.src_ip ++ drop (length ft.src_ip) buf)
unfolding encode_fields field_kind bytes_eq
short_address_keeps_buffer buf ft h e = rw (copy_at-append [] buf ft.src_ip (omega arith), ◌>>=◌)
