-- ===== src/Probe/Tests.antt =====
-- A publisher without a persistence worker, whose messages NATS takes.
use go2net_spectra.Base.{ℕ, ◌+◌, ◌≡◌, refl, arith, Bytes, [], ◌∷◌, none, some, true}
use go2net_spectra.Packet.{PacketInfo}
use go2net_spectra.Parser.{RawPacket}
use go2net_spectra.PacketCodec.{marshal_packet_info, packet_info_to_thrift}
use go2net_spectra.PacketCodec.Sample.{write, read, reads_back, packet}
use go2net_spectra.Manager.{TaskOps, arrive, start_manager}
use go2net_spectra.StreamAggregator.{StreamAggregator, new_stream_aggregator, handle_packet}
use go2net_spectra.Probe.{Publisher, publish, received}
use go2net_spectra.Probe.Journey.{published_reaches_manager}

abbrev ops : TaskOps ℕ PacketInfo ℕ
ops = record { process_packet = λ p s. s + p.length; reset = λ s. 0; snapshot = λ s. s }

abbrev aggregator : StreamAggregator ℕ PacketInfo ℕ
aggregator = new_stream_aggregator ops (start_manager (0 ∷ []) [] 1 1)

abbrev publisher : Publisher
publisher = record { persistence_worker = none; messages = [] }

abbrev raw : RawPacket
raw = record { metadata = none; ipv4 = none; ipv6 = none; tcp = none; udp = none }

published_reaches_manager_example :
    (message : Bytes) × ((publish write read [] (λ m. true) raw packet publisher).0.messages
      ≡ message ∷ [])
    × ((handle_packet ops (received write read) message aggregator).manager
        ≡ arrive ops (some packet) aggregator.manager)
unfolding publish marshal_packet_info packet_info_to_thrift
published_reaches_manager_example =
    published_reaches_manager write read ops aggregator [] (λ m. true) raw packet publisher
      reads_back (record { src = omega arith; dst = omega arith; proto = omega arith }) refl
