-- ===== src/Parser/Tests.antt =====
-- A UDP packet over IPv6 without metadata, read into an info that was used before.
use go2net_spectra.Base.{◌≡◌, ◌⊎◌, [], ◌∷◌, none, some}
use go2net_spectra.Packet.{PacketInfo}
use go2net_spectra.Parser.{
  RawPacket, IpLayer, zero_tuple, not_ip_packet, captured, HasIp, tuple_of, parse_packet_into,
  parse_packet_into_lem,
}

abbrev packet : RawPacket
packet = record {
  metadata = none;
  ipv4 = none;
  ipv6 = some (record { src_ip = 1 ∷ []; dst_ip = 2 ∷ []; protocol = 17 });
  tcp = none;
  udp = some (record { src_port = 53; dst_port = 999 });
}

-- What the info held before.
abbrev used_info : PacketInfo
used_info = record {
  timestamp = 5;
  five_tuple = record {
    src_ip = 8 ∷ [];
    dst_ip = 9 ∷ [];
    src_port = 80;
    dst_port = 443;
    protocol = 6;
  };
  length = 60;
}

parse_packet_into_example :
    (info : PacketInfo) × ((parse_packet_into packet (some used_info)).0 ≡ some info)
    × (info.timestamp ≡ captured (λ m. m.timestamp) packet)
    × (info.length ≡ captured (λ m. m.length) packet)
    × (((packet.ipv4 ≡ none)
          × (packet.ipv6 ≡ none)
          × ((parse_packet_into packet (some used_info)).1 ≡ some not_ip_packet)
          × (info.five_tuple ≡ zero_tuple))
        ⊎ ((ip : IpLayer) × HasIp packet ip
            × ((parse_packet_into packet (some used_info)).1 ≡ none)
            × (info.five_tuple ≡ tuple_of packet ip)))
parse_packet_into_example = parse_packet_into_lem packet used_info
