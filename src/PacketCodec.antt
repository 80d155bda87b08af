-- ===== src/PacketCodec.antt =====
-- The codec between packet metadata and its Thrift message: internal/probe/packetcodec.go. A signed
-- integer is its two's complement pattern: an `int32` below 2 ^ 32, an `int64` or `int` below 2 ^ 64.
-- A time is the pattern of its `UnixNano`. The serializer is Apache Thrift's: a parameter.
pub mod RoundTrip
pub mod Sample
mod Tests
use go2net_spectra.Base.{ℕ, ◌%◌, ◌^◌, Bytes, Option, none, some, ◌++◌, [], List}
use go2net_spectra.Packet.{FiveTuple, PacketInfo}

pub data CodecError : Type 0 where
  nil_packet_info nil_thrift_packet nil_five_tuple marshal_failed unmarshal_failed : CodecError

pub data Result {ℓ} (A : Type ℓ) : Type ℓ where
  ok : A → Result A
  err : CodecError → Result A

infixl 5 ◌>>=◌
abbrev pub ◌>>=◌ {ℓ κ} : {A : Type ℓ} {B : Type κ} → Result A → (A → Result B) → Result B
ok a >>= f = f a
err e >>= f = err e

abbrev pub or_err {ℓ} : {A : Type ℓ} → Option A → CodecError → Result A
or_err none e = err e
or_err (some a) e = ok a

-- `v1.FiveTuple` and `v1.PacketInfo`
pub record ThriftFiveTuple : Type 0 where
  pub src_ip : Bytes
  pub dst_ip : Bytes
  pub src_port : ℕ
  pub dst_port : ℕ
  pub protocol : ℕ

pub record ThriftPacketInfo : Type 0 where
  pub timestamp_unix_nano : ℕ
  pub five_tuple : Option ThriftFiveTuple
  pub length : ℕ

-- Widening an unsigned value to `int32` keeps it. A time is its `UnixNano` pattern, as everywhere here:
-- a time that `UnixNano` cannot express, such as the zero time, has no pattern of its own.
abbrev pub to_thrift : PacketInfo → ThriftPacketInfo
to_thrift p = record {
  timestamp_unix_nano = p.timestamp;
  five_tuple = some (record {
    src_ip = p.five_tuple.src_ip;
    dst_ip = p.five_tuple.dst_ip;
    src_port = p.five_tuple.src_port;
    dst_port = p.five_tuple.dst_port;
    protocol = p.five_tuple.protocol;
  });
  length = p.length;
}

-- A nil pointer is `none`.
unfoldable pub packet_info_to_thrift : Option PacketInfo → Result ThriftPacketInfo
packet_info_to_thrift none = err nil_packet_info
packet_info_to_thrift (some p) = ok (to_thrift p)

-- `uint16(x)` and `uint8(x)` keep the low bits.
abbrev pub from_five_tuple : ThriftFiveTuple → FiveTuple
from_five_tuple t = record {
  src_ip = t.src_ip;
  dst_ip = t.dst_ip;
  src_port = t.src_port % 2 ^ 16;
  dst_port = t.dst_port % 2 ^ 16;
  protocol = t.protocol % 2 ^ 8;
}

unfoldable pub packet_info_from_thrift : Option ThriftPacketInfo → Result PacketInfo
packet_info_from_thrift none = err nil_thrift_packet
packet_info_from_thrift (some packet) = do
  t ← or_err packet.five_tuple nil_five_tuple
  ok (record {
    timestamp = packet.timestamp_unix_nano;
    five_tuple = from_five_tuple t;
    length = packet.length;
  })

-- `serializer.Write` and `deserializer.Read`, with `none` for an error.
module _ (write : ThriftPacketInfo → Option Bytes) (read : Bytes → Option ThriftPacketInfo) where
  -- `append(dst[:0], data...)` overwrites the buffer that it is given.
  unfoldable pub marshal_packet_info : Option Bytes → Option PacketInfo → Result Bytes
  unfolding packet_info_to_thrift
  marshal_packet_info dst p = do
    packet ← packet_info_to_thrift p
    bytes ← or_err (write packet) marshal_failed
    ok (elim dst [ none ↦ bytes | some buf ↦ [] ++ bytes ])

  unfoldable pub unmarshal_packet_info : Bytes → Result PacketInfo
  unfolding packet_info_from_thrift
  unmarshal_packet_info bytes = do
    packet ← or_err (read bytes) unmarshal_failed
    packet_info_from_thrift (some packet)
