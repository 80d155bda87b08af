-- ===== src/Pcap/Reading.antt =====
-- The reader sends what `ParsePacket` accepts, and counts the rest.
use go2net_spectra.Base.{
  ◌+◌, ◌<◌, ◌^◌, ◌≡◌, refl, ap, arith, List, [], ◌∷◌, ◌++◌, Option, none, some, length,
  Option-cases, inl, inr, ◌⊎◌, ◌%◌,
}
use go2net_spectra.Packet.{PacketInfo}
use go2net_spectra.Parser.{
  RawPacket, ip_layer, zero_tuple, zero_info, with_metadata, with_ports, transport_layer,
  parse_packet, parse_packet_into,
}
use go2net_spectra.Pcap.{Reader, read_packet, read_packets}

-- The packets that `ParsePacket` accepts, in the order of the file.
abbrev pub parsed : List RawPacket → List PacketInfo
parsed [] = []
parsed (packet ∷ packets) = elim (parse_packet packet).0 [
  | none ↦ parsed packets
  | some info ↦ info ∷ parsed packets
]

-- One packet is counted, and sent or counted as failed.
read_packet_lem :
    (packet : RawPacket) (r : Reader)
    → ((read_packet packet r
          ≡ (record { total = (r.total + 1) % 2 ^ 64; failed = (r.failed + 1) % 2 ^ 64 }, []))
        × ((parse_packet packet).0 ≡ none))
      ⊎ ((info : PacketInfo) × (read_packet packet r
            ≡ (record { total = (r.total + 1) % 2 ^ 64; failed = r.failed }, info ∷ []))
          × ((parse_packet packet).0 ≡ some info))
unfolding read_packet parse_packet parse_packet_into
read_packet_lem packet r = elim (Option-cases (ip_layer packet)) [
  | inl e ↦ inl (ground (arith, e), ground (arith, e))
  | inr (ip, e) ↦
      let t = record zero_tuple {
        src_ip = ip.src_ip;
        dst_ip = ip.dst_ip;
        protocol = ip.protocol;
      } in
      inr (
        record (with_metadata packet zero_info) {
          five_tuple = with_ports (transport_layer packet) t;
        },
        ground (arith, e),
        ground (arith, e),
      )
]

parsed-cons :
    (packet : RawPacket) (packets : List RawPacket) (o : Option PacketInfo)
    → (parse_packet packet).0 ≡ o
    → parsed (packet ∷ packets)
      ≡ elim o [ none ↦ parsed packets | some info ↦ info ∷ parsed packets ]
parsed-cons packet packets o e =
    ap
      (λ (x : Option PacketInfo). elim x as (λ y. List PacketInfo) [
        | none ↦ parsed packets
        | some info ↦ info ∷ parsed packets
      ])
      e

read_packets-cons :
    (packet : RawPacket) (packets : List RawPacket) (r next : Reader) (sent : List PacketInfo)
    → read_packet packet r ≡ (next, sent)
    → read_packets (packet ∷ packets) r
      ≡ ((read_packets packets next).0, sent ++ (read_packets packets next).1)
unfolding read_packets
read_packets-cons packet packets r next sent e =
    ap
      (λ (x : Reader × List PacketInfo).
        ((read_packets packets x.0).0, x.1 ++ (read_packets packets x.0).1))
      e

read_packets-nil : (r : Reader) → read_packets [] r ≡ (r, [])
unfolding read_packets
read_packets-nil r = refl

-- After any file, as long as the counters cannot pass 2 ^ 63: the reader has sent exactly the packets
-- that `ParsePacket` accepts, in order; it has counted every packet, and as failed those that it did
-- not send.
pub read_packets_lem :
    (packets : List RawPacket) (r : Reader)
    → r.total + length packets < 2 ^ 63
    → r.failed + length packets < 2 ^ 63
    → ((read_packets packets r).1 ≡ parsed packets)
      × ((read_packets packets r).0.total ≡ r.total + length packets)
      × ((read_packets packets r).0.failed + length (read_packets packets r).1
          ≡ r.failed + length packets)
read_packets_lem [] r a b = rw (read_packets-nil r) (refl, omega arith, omega arith)
read_packets_lem (packet ∷ packets) r a b = elim (read_packet_lem packet r) [
  | inl (e, refused) ↦
      let next : Reader = record {
        total = (r.total + 1) % 2 ^ 64;
        failed = (r.failed + 1) % 2 ^ 64;
      } in
      let whole = read_packets-cons packet packets r next [] e in
      let (sent, total, failed) = read_packets_lem packets next (omega arith) (omega arith) in
      rw (whole, parsed-cons packet packets none refused) (sent, omega arith, omega arith)
  | inr (info, e, accepted) ↦
      let next : Reader = record { total = (r.total + 1) % 2 ^ 64; failed = r.failed } in
      let whole = read_packets-cons packet packets r next (info ∷ []) e in
      let (sent, total, failed) = read_packets_lem packets next (omega arith) (omega arith) in
      rw (whole, parsed-cons packet packets (some info) accepted)
        (ap (λ l. info ∷ l) sent, omega arith, omega arith)
]
