-- ===== src/Pcap.antt =====
-- The reader of pcap files: pkg/pcap/reader.go, and its use in internal/engine/offline/runner.go. The
-- packets of the file are a parameter.
pub mod Reading
mod Tests
use go2net_spectra.Base.{ℕ, ◌+◌, ◌%◌, ◌^◌, List, [], ◌∷◌, ◌++◌, Option, none, some}
use go2net_spectra.Packet.{PacketInfo}
use go2net_spectra.Parser.{RawPacket, ParseError, zero_info, parse_packet_into}

-- `Reader`, less its handle: two counters of type `int`.
pub record Reader : Type 0 where
  pub total : ℕ
  pub failed : ℕ

unfoldable pub new_reader : Reader
new_reader = record { total = 0; failed = 0 }

-- One round of the loop: the counters, and what is sent to the channel.
unfoldable pub read_packet : RawPacket → Reader → Reader × List PacketInfo
unfolding parse_packet_into
read_packet packet r =
    let counted = record r { total = (r.total + 1) % 2 ^ 64 } in
    let (info, e) = parse_packet_into packet (some zero_info) in
    elim e [
      | some failure ↦ (record counted { failed = (r.failed + 1) % 2 ^ 64 }, [])
      | none ↦ (counted, elim info [ none ↦ [] | some i ↦ i ∷ [] ])
    ]

-- `ReadPackets`
unfoldable pub read_packets : List RawPacket → Reader → Reader × List PacketInfo
unfolding read_packet
read_packets [] r = (r, [])
read_packets (packet ∷ packets) r =
    let (next, sent) = read_packet packet r in
    let (last, more) = read_packets packets next in (last, sent ++ more)
