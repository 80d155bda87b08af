-- ===== src/Pcap/Tests.antt =====
-- A file with a packet that has no IP layer and a TCP packet.
use go2net_spectra.Base.{◌+◌, ◌≡◌, refl, arith, List, [], ◌∷◌, none, some, length}
use go2net_spectra.Parser.{RawPacket, parse_packet_into}
use go2net_spectra.Pcap.{Reader, read_packets}
use go2net_spectra.Pcap.Reading.{parsed, read_packets_lem}

abbrev bare : RawPacket
bare = record { metadata = none; ipv4 = none; ipv6 = none; tcp = none; udp = none }

abbrev file : List RawPacket
file =
    bare
    ∷ record bare {
      ipv4 = some (record { src_ip = 1 ∷ []; dst_ip = 2 ∷ []; protocol = 6 });
      tcp = some (record { src_port = 80; dst_port = 443 });
    }
    ∷ []

abbrev reader : Reader
reader = record { total = 0; failed = 0 }

read_packets_example :
    ((read_packets file reader).1 ≡ parsed file)
    × ((read_packets file reader).0.total ≡ 0 + length file)
    × ((read_packets file reader).0.failed + length (read_packets file reader).1 ≡ 0 + length file)
read_packets_example = read_packets_lem file reader (omega arith) (omega arith)

counts_the_failure : (read_packets file reader).0 ≡ record { total = 2; failed = 1 }
unfolding read_packets parse_packet_into
counts_the_failure = refl
