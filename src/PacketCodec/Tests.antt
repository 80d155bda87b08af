-- ===== src/PacketCodec/Tests.antt =====
-- The codec over a serializer of messages without addresses.
use go2net_spectra.Base.{◌≡◌, refl, Bytes, [], ◌∷◌}
use go2net_spectra.PacketCodec.{ok, unmarshal_packet_info, packet_info_from_thrift}
use go2net_spectra.PacketCodec.Sample.{write, read, packet}

abbrev wire : Bytes
wire = 5 ∷ 60 ∷ 80 ∷ 443 ∷ 6 ∷ []

reads_the_wire : unmarshal_packet_info write read wire ≡ ok packet
unfolding unmarshal_packet_info packet_info_from_thrift
reads_the_wire = refl
