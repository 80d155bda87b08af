-- ===== src/PacketCodec/RoundTrip.antt =====
-- A packet comes back from the wire as it was sent.
use go2net_spectra.Base.{◌^◌, ◌<◌, ◌≡◌, arith, Bytes, Option, none, some, Option-cases, inl, inr}
use go2net_spectra.Packet.{PacketInfo}
use go2net_spectra.PacketCodec.{
  ThriftPacketInfo, ok, err, nil_five_tuple, ◌>>=◌, to_thrift, packet_info_to_thrift,
  packet_info_from_thrift, marshal_packet_info, unmarshal_packet_info,
}

-- The ports are `uint16` and the protocol is a `uint8`.
pub record InTypes (p : PacketInfo) : Type 0 where
  pub src : p.five_tuple.src_port < 2 ^ 16
  pub dst : p.five_tuple.dst_port < 2 ^ 16
  pub proto : p.five_tuple.protocol < 2 ^ 8

pub from_thrift-to_thrift :
    (p : PacketInfo)
    → InTypes p
    → (packet_info_to_thrift (some p) >>= λ t. packet_info_from_thrift (some t)) ≡ ok p
unfolding packet_info_to_thrift packet_info_from_thrift
from_thrift-to_thrift p h = ground arith

-- If the deserializer reads back every message that the serializer writes, then a packet whose fields
-- are within their Go types is unmarshalled from its own encoding unchanged, whatever buffer the
-- encoder was given.
pub unmarshal-marshal :
    (write : ThriftPacketInfo → Option Bytes) (read : Bytes → Option ThriftPacketInfo)
    (dst : Option Bytes) (p : PacketInfo) (wire : Bytes)
    → ((t : ThriftPacketInfo) (b : Bytes) → write t ≡ some b → read b ≡ some t)
    → InTypes p
    → marshal_packet_info write read dst (some p) ≡ ok wire
    → unmarshal_packet_info write read wire ≡ ok p
unfolding marshal_packet_info unmarshal_packet_info
unmarshal-marshal write read dst p wire faithful h e = elim (Option-cases (write (to_thrift p))) [
  | inl none' ↦ absurd (ground (arith, e, none'))
  | inr (b, written) ↦
      let same : b ≡ wire = ground (arith, e, written) in
      let back : read wire ≡ some (to_thrift p) = rw (← same) (faithful (to_thrift p) b written) in
      rw (back, ◌>>=◌) (from_thrift-to_thrift p h)
]

-- A message without a five tuple is an error, and never a packet with an empty one.
pub unmarshal_without_tuple :
    (write : ThriftPacketInfo → Option Bytes) (read : Bytes → Option ThriftPacketInfo)
    (wire : Bytes) (t : ThriftPacketInfo)
    → read wire ≡ some t
    → t.five_tuple ≡ none
    → unmarshal_packet_info write read wire ≡ err nil_five_tuple
unfolding unmarshal_packet_info
unmarshal_without_tuple write read wire t e n = ground (arith, e, n)
