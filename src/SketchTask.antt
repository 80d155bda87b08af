-- ===== src/SketchTask.antt =====
-- The field codec of the sketch task: internal/engine/impl/sketch/task.go. Out of range, an index or
-- a slice panics: `none`.
pub mod Layout
pub mod RoundTrip
pub mod Arrivals
mod Tests
use go2net_spectra.Base.{
  ℕ, ◌+◌, ◌-◌, ◌*◌, ◌/◌, ◌%◌, ◌^◌, bit_or, Bytes, text, bytes_eq, copy, join, itoa, List, [], ◌∷◌,
  ◌++◌, Option, none, some, length, take, drop, set, get_elem?, ltb, leb, if◌then◌else◌,
}
use go2net_spectra.Packet.{
  FiveTuple, FieldKind, field_kind, src_ip, dst_ip, src_port, dst_port, protocol, unknown,
}

infixl 5 ◌>>=◌
abbrev pub ◌>>=◌ {ℓ κ} : {A : Type ℓ} {B : Type κ} → Option A → (A → Option B) → Option B
none >>= f = none
some a >>= f = f a

abbrev pub ipv6_byte_size : ℕ
ipv6_byte_size = 16

abbrev pub port_byte_size : ℕ
port_byte_size = 2

abbrev pub proto_byte_size : ℕ
proto_byte_size = 1

abbrev pub max_field_size : ℕ
max_field_size = 37

unfoldable pub kind_byte_size : FieldKind → ℕ
kind_byte_size src_ip = ipv6_byte_size
kind_byte_size dst_ip = ipv6_byte_size
kind_byte_size src_port = port_byte_size
kind_byte_size dst_port = port_byte_size
kind_byte_size protocol = proto_byte_size
kind_byte_size unknown = 0

-- `fieldByteSize`
unfoldable pub field_byte_size : Bytes → ℕ
unfolding kind_byte_size
field_byte_size field = kind_byte_size (field_kind field)

-- The sum that `New` keeps as `flowSize` and as `elemSize` (`uint32`, which it cannot reach).
unfoldable pub fields_size : List Bytes → ℕ
unfolding field_byte_size
fields_size [] = 0
fields_size (f ∷ fs) = field_byte_size f + fields_size fs

-- `buf[i] = v`
unfoldable pub store : Bytes → ℕ → ℕ → Option Bytes
store buf i v = if ltb i (length buf) then some (set buf i v) else none

-- `copy(buf[offset:], src)`
unfoldable pub copy_at : Bytes → ℕ → Bytes → Option Bytes
copy_at buf offset src =
    if leb offset (length buf) then some (take offset buf ++ copy (drop offset buf) src) else none

-- The two bytes of a port, `byte(p >> 8)` and `byte(p & 0xFF)`.
abbrev pub high_byte : ℕ → ℕ
high_byte p = p / 2 ^ 8 % 2 ^ 8

abbrev pub low_byte : ℕ → ℕ
low_byte p = p % 2 ^ 8

unfoldable pub encode_ip : Bytes → ℕ → Bytes → Option (Bytes × ℕ)
unfolding copy_at
encode_ip buf offset ip = do b ← copy_at buf offset ip; some (b, offset + ipv6_byte_size)

unfoldable pub encode_port : Bytes → ℕ → ℕ → Option (Bytes × ℕ)
unfolding store
encode_port buf offset port = do
  b ← store buf offset (high_byte port)
  b' ← store b (offset + 1) (low_byte port)
  some (b', offset + port_byte_size)

unfoldable pub encode_kind : Bytes → ℕ → FieldKind → FiveTuple → Option (Bytes × ℕ)
unfolding encode_ip encode_port store
encode_kind buf offset src_ip ft = encode_ip buf offset ft.src_ip
encode_kind buf offset dst_ip ft = encode_ip buf offset ft.dst_ip
encode_kind buf offset src_port ft = encode_port buf offset ft.src_port
encode_kind buf offset dst_port ft = encode_port buf offset ft.dst_port
encode_kind buf offset protocol ft = do
  b ← store buf offset (low_byte ft.protocol)
  some (b, offset + proto_byte_size)
encode_kind buf offset unknown ft = some (buf, offset)

-- `EncodeFlow`
unfoldable pub encode_flow : Bytes → ℕ → Bytes → FiveTuple → Option (Bytes × ℕ)
unfolding encode_kind
encode_flow buf offset field ft = encode_kind buf offset (field_kind field) ft

-- One of the two loops of `generateFlowAndElem`.
unfoldable pub encode_fields : Bytes → ℕ → List Bytes → FiveTuple → Option Bytes
unfolding encode_flow
encode_fields buf offset [] ft = some buf
encode_fields buf offset (f ∷ fs) ft = do
  (b, next) ← encode_flow buf offset f ft
  encode_fields b next fs ft

unfoldable pub generate_flow_and_elem :
    List Bytes → List Bytes → Bytes → Bytes → FiveTuple → Option (Bytes × Bytes)
unfolding encode_fields
generate_flow_and_elem flow_fields element_fields flow elem ft = do
  f ← encode_fields flow 0 flow_fields ft
  e ← encode_fields elem 0 element_fields ft
  some (f, e)

-- `flow[offset : offset+n]` of a slice without spare capacity, as `make` gives: Go compares the upper
-- bound with the capacity, which is then the length.
unfoldable pub slice : Bytes → ℕ → ℕ → Option Bytes
slice flow offset n =
    if leb (offset + n) (length flow) then some (take n (drop offset flow)) else none

-- `binary.BigEndian.Uint16` of a slice of two bytes.
unfoldable pub uint16 : Bytes → Option ℕ
uint16 (a ∷ b ∷ rest) = some (bit_or (a * 2 ^ 8) b)
uint16 (a ∷ []) = none
uint16 [] = none

-- `DecodeFlow`. `ip_string` is `net.IP.String`.
module _ (ip_string : Bytes → Bytes) where
  unfoldable pub decode_kind : Bytes → ℕ → FieldKind → Option (List Bytes × ℕ)
  unfolding slice uint16
  decode_kind flow offset src_ip = do
    ip ← slice flow offset ipv6_byte_size
    some (ip_string ip ∷ [], offset + ipv6_byte_size)
  decode_kind flow offset dst_ip = do
    ip ← slice flow offset ipv6_byte_size
    some (ip_string ip ∷ [], offset + ipv6_byte_size)
  decode_kind flow offset src_port = do
    s ← slice flow offset port_byte_size
    port ← uint16 s
    some (itoa port ∷ [], offset + port_byte_size)
  decode_kind flow offset dst_port = do
    s ← slice flow offset port_byte_size
    port ← uint16 s
    some (itoa port ∷ [], offset + port_byte_size)
  decode_kind flow offset protocol = do
    proto ← get_elem? flow offset
    some (itoa proto ∷ [], offset + proto_byte_size)
  decode_kind flow offset unknown = some ([], offset)

  unfoldable pub decode_parts : Bytes → ℕ → List Bytes → Option (List Bytes)
  unfolding decode_kind
  decode_parts flow offset [] = some []
  decode_parts flow offset (f ∷ fs) = do
    (part, next) ← decode_kind flow offset (field_kind f)
    rest ← decode_parts flow next fs
    some (part ++ rest)

  unfoldable pub decode_flow : Bytes → List Bytes → Option Bytes
  unfolding decode_parts
  decode_flow flow fields = do parts ← decode_parts flow 0 fields; some (join parts (text " "))

-- The first half of `ProcessPacket`: the two keys, in the buffers that the pools hand out.
unfoldable pub packet_keys :
    List Bytes → List Bytes → ℕ → ℕ → Bytes → Bytes → FiveTuple → Option (Bytes × Bytes)
packet_keys flow_fields element_fields flow_size elem_size flow_buffer elem_buffer ft = do
  flow ← slice flow_buffer 0 flow_size
  elem ← slice elem_buffer 0 elem_size
  generate_flow_and_elem flow_fields element_fields flow elem ft
