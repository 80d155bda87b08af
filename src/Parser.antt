-- ===== src/Parser.antt =====
-- The packet parser: internal/protocol/parser.go. The decoded layers of a `gopacket.Packet` are
-- fields of a record: which layers a packet has is the library's answer, and `none` is a layer that
-- is not there.
mod Tests
use go2net_spectra.Base.{
  ℕ, ◌≡◌, refl, ap, ◌∙◌, Bytes, [], Option, none, some, arith, ◌⊎◌, inl, inr, Option-cases,
}
use go2net_spectra.Packet.{FiveTuple, PacketInfo}

pub record CaptureInfo : Type 0 where
  pub timestamp : ℕ
  pub length : ℕ

-- Addresses, and `Protocol` or `NextHeader`.
pub record IpLayer : Type 0 where
  pub src_ip : Bytes
  pub dst_ip : Bytes
  pub protocol : ℕ

pub record PortLayer : Type 0 where
  pub src_port : ℕ
  pub dst_port : ℕ

pub record RawPacket : Type 0 where
  pub metadata : Option CaptureInfo
  pub ipv4 : Option IpLayer
  pub ipv6 : Option IpLayer
  pub tcp : Option PortLayer
  pub udp : Option PortLayer

pub data ParseError : Type 0 where
  nil_packet_info not_ip_packet : ParseError

abbrev pub zero_tuple : FiveTuple
zero_tuple = record { src_ip = []; dst_ip = []; src_port = 0; dst_port = 0; protocol = 0 }

abbrev pub zero_info : PacketInfo
zero_info = record { timestamp = 0; five_tuple = zero_tuple; length = 0 }

unfoldable pub with_metadata : RawPacket → PacketInfo → PacketInfo
with_metadata packet info = elim packet.metadata [
  | none ↦ info
  | some m ↦ record info { timestamp = m.timestamp; length = m.length }
]

abbrev pub or_else {ℓ} : {A : Type ℓ} → Option A → Option A → Option A
or_else (some a) o = some a
or_else none o = o

-- The IP layer that the parser takes, and the transport layer.
abbrev pub ip_layer : RawPacket → Option IpLayer
ip_layer packet = or_else packet.ipv4 packet.ipv6

abbrev pub transport_layer : RawPacket → Option PortLayer
transport_layer packet = or_else packet.tcp packet.udp

abbrev pub with_ports : Option PortLayer → FiveTuple → FiveTuple
with_ports none t = t
with_ports (some l) t = record t { src_port = l.src_port; dst_port = l.dst_port }

-- `ParsePacketInto`: the caller's info afterwards, and the error.
unfoldable pub parse_packet_into :
    RawPacket → Option PacketInfo → Option PacketInfo × Option ParseError
unfolding with_metadata
parse_packet_into packet none = (none, some nil_packet_info)
parse_packet_into packet (some old) =
    let info = with_metadata packet zero_info in
    elim (ip_layer packet) [
      | none ↦ (some info, some not_ip_packet)
      | some ip ↦
          let t = record zero_tuple {
            src_ip = ip.src_ip;
            dst_ip = ip.dst_ip;
            protocol = ip.protocol;
          } in
          (some (record info { five_tuple = with_ports (transport_layer packet) t }), none)
    ]

-- `ParsePacket`
unfoldable pub parse_packet : RawPacket → Option PacketInfo × Option ParseError
unfolding parse_packet_into
parse_packet packet =
    let (info, e) = parse_packet_into packet (some zero_info) in
    elim e [ none ↦ (info, none) | some x ↦ (none, some x) ]

-- What a packet says, 0 where it says nothing: a field of its metadata, and a port of its TCP layer,
-- else of its UDP layer.
abbrev pub captured : (CaptureInfo → ℕ) → RawPacket → ℕ
captured field packet = elim packet.metadata [ none ↦ 0 | some m ↦ field m ]

abbrev pub port_of : (PortLayer → ℕ) → RawPacket → ℕ
port_of field packet = elim packet.tcp [
  | some l ↦ field l
  | none ↦ elim packet.udp [ some l ↦ field l | none ↦ 0 ]
]

-- The packet's IP layer: the IPv4 layer, or the IPv6 layer of a packet without one.
abbrev pub HasIp : RawPacket → IpLayer → Type 0
HasIp packet ip = (packet.ipv4 ≡ some ip) ⊎ ((packet.ipv4 ≡ none) × (packet.ipv6 ≡ some ip))

ip_layer-HasIp : (packet : RawPacket) (ip : IpLayer) → ip_layer packet ≡ some ip → HasIp packet ip
ip_layer-HasIp packet ip e = elim (Option-cases packet.ipv4) [
  | inl no_v4 ↦ inr (no_v4, rw no_v4 at e)
  | inr (v4, has) ↦ inl (has ∙ rw has at e)
]

ip_layer-none :
    (packet : RawPacket) → ip_layer packet ≡ none → (packet.ipv4 ≡ none) × (packet.ipv6 ≡ none)
ip_layer-none packet e = elim (Option-cases packet.ipv4) [
  | inl no_v4 ↦ (no_v4, rw no_v4 at e)
  | inr (v4, has) ↦ absurd (ground (arith, e, has))
]

-- The five-tuple of a packet with that IP layer.
abbrev pub tuple_of : RawPacket → IpLayer → FiveTuple
tuple_of packet ip = record {
  src_ip = ip.src_ip;
  dst_ip = ip.dst_ip;
  src_port = port_of (λ l. l.src_port) packet;
  dst_port = port_of (λ l. l.dst_port) packet;
  protocol = ip.protocol;
}

with_ports-tuple_of :
    (packet : RawPacket) (ip : IpLayer)
    → with_ports
        (transport_layer packet)
        (record zero_tuple { src_ip = ip.src_ip; dst_ip = ip.dst_ip; protocol = ip.protocol })
      ≡ tuple_of packet ip
with_ports-tuple_of packet ip = elim (Option-cases packet.tcp) [
  | inr (l, has) ↦ rw has refl
  | inl no_tcp ↦ elim (Option-cases packet.udp) [
    | inr (l, has) ↦ rw (no_tcp, has) refl
    | inl no_udp ↦ rw (no_tcp, no_udp) refl
  ]
]

with_metadata-captured :
    (packet : RawPacket)
    → with_metadata packet zero_info ≡ record zero_info {
      timestamp = captured (λ m. m.timestamp) packet;
      length = captured (λ m. m.length) packet;
    }
unfolding with_metadata
with_metadata-captured packet = elim (Option-cases packet.metadata) [
  | inr (m, has) ↦ rw has refl
  | inl without ↦ rw without refl
]

-- Whatever the caller's info held, `ParsePacketInto` leaves in it only what the packet says. The
-- timestamp and the length are those of the metadata, or 0 if there is none. It fails exactly on a
-- packet with no IP layer, and then the info has no addresses and no ports. Else the addresses and the
-- protocol are those of the IPv4 layer, or of the IPv6 layer if there is none, and the ports those of
-- the TCP layer, else of the UDP layer, else 0.
pub parse_packet_into_lem :
    (packet : RawPacket) (old : PacketInfo)
    → (info : PacketInfo) × ((parse_packet_into packet (some old)).0 ≡ some info)
      × (info.timestamp ≡ captured (λ m. m.timestamp) packet)
      × (info.length ≡ captured (λ m. m.length) packet)
      × (((packet.ipv4 ≡ none)
            × (packet.ipv6 ≡ none)
            × ((parse_packet_into packet (some old)).1 ≡ some not_ip_packet)
            × (info.five_tuple ≡ zero_tuple))
          ⊎ ((ip : IpLayer) × HasIp packet ip
              × ((parse_packet_into packet (some old)).1 ≡ none)
              × (info.five_tuple ≡ tuple_of packet ip)))
unfolding parse_packet_into
parse_packet_into_lem packet old =
    let meta = with_metadata-captured packet in
    let time = ap (λ (i : PacketInfo). i.timestamp) meta in
    let size = ap (λ (i : PacketInfo). i.length) meta in
    elim (Option-cases (ip_layer packet)) [
      | inl e ↦
          let (no_v4, no_v6) = ip_layer-none packet e in
          (
            with_metadata packet zero_info,
            ground (arith, e),
            time,
            size,
            inl (no_v4, no_v6, ground (arith, e), ap (λ (i : PacketInfo). i.five_tuple) meta),
          )
      | inr (ip, e) ↦
          let t = record zero_tuple {
            src_ip = ip.src_ip;
            dst_ip = ip.dst_ip;
            protocol = ip.protocol;
          } in
          (
            record (with_metadata packet zero_info) {
              five_tuple = with_ports (transport_layer packet) t;
            },
            ground (arith, e),
            time,
            size,
            inr (ip, ip_layer-HasIp packet ip e, ground (arith, e), with_ports-tuple_of packet ip),
          )
    ]
