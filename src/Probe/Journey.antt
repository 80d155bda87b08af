-- ===== src/Probe/Journey.antt =====
-- A packet on its way from the probe to the engine: the publisher, the codec, and the aggregator's
-- handler together.
use go2net_spectra.Base.{
  ◌≡◌, refl, arith, Bytes, ◌∷◌, Option, none, some, Bool, Bool-cases, inl, inr,
}
use go2net_spectra.Packet.{PacketInfo}
use go2net_spectra.Parser.{RawPacket}
use go2net_spectra.PacketCodec.{
  ThriftPacketInfo, Result, ok, err, marshal_packet_info, unmarshal_packet_info,
}
use go2net_spectra.PacketCodec.RoundTrip.{InTypes, unmarshal-marshal}
use go2net_spectra.Manager.{TaskOps, arrive}
use go2net_spectra.StreamAggregator.{StreamAggregator, handle_packet}
use go2net_spectra.Probe.{Publisher, publish, received}

module _ (write : ThriftPacketInfo → Option Bytes) (read : Bytes → Option ThriftPacketInfo) where
  -- What a `Publish` without an error gave to NATS.
  publish-ok :
      (buffer : Bytes) (takes : Bytes → Bool) (raw : RawPacket) (info : PacketInfo) (p : Publisher)
      → (publish write read buffer takes raw info p).1 ≡ none
      → (message : Bytes) × ((publish write read buffer takes raw info p).0.messages
          ≡ message ∷ p.messages)
        × (marshal_packet_info write read (some buffer) (some info) ≡ ok message)
  unfolding publish
  publish-ok buffer takes raw info p h =
      result_lem (marshal_packet_info write read (some buffer) (some info)) refl
    where
      result_lem :
          (r : Result Bytes)
          → marshal_packet_info write read (some buffer) (some info) ≡ r
          → (message : Bytes) × ((publish write read buffer takes raw info p).0.messages
              ≡ message ∷ p.messages)
            × (marshal_packet_info write read (some buffer) (some info) ≡ ok message)
      result_lem (err x) e = absurd (ground (arith, e, h))
      result_lem (ok message) e = elim (Bool-cases (takes message)) [
        | inl taken ↦ (message, ground (arith, e, taken), e)
        | inr not_taken ↦ absurd (ground (arith, e, not_taken, h))
      ]

  received-message :
      (message : Bytes) (info : PacketInfo)
      → unmarshal_packet_info write read message ≡ ok info
      → received write read message ≡ some info
  unfolding received
  received-message message info e = ground (arith, e)

  -- If the deserializer reads back every message that the serializer writes: whenever `Publish` of a
  -- packet within its Go types returns no error, it gave NATS one more message, and on that message
  -- the handler of any stream aggregator comes to send exactly that packet to its manager.
  pub published_reaches_manager :
      {S D : Type 0} (ops : TaskOps S PacketInfo D) (a : StreamAggregator S PacketInfo D)
      (buffer : Bytes) (takes : Bytes → Bool) (raw : RawPacket) (info : PacketInfo) (p : Publisher)
      → ((t : ThriftPacketInfo) (b : Bytes) → write t ≡ some b → read b ≡ some t)
      → InTypes info
      → (publish write read buffer takes raw info p).1 ≡ none
      → (message : Bytes) × ((publish write read buffer takes raw info p).0.messages
          ≡ message ∷ p.messages)
        × ((handle_packet ops (received write read) message a).manager
            ≡ arrive ops (some info) a.manager)
  unfolding handle_packet
  published_reaches_manager ops a buffer takes raw info p faithful fits h =
      let (message, sent, e) = publish-ok buffer takes raw info p h in
      let back = unmarshal-marshal write read (some buffer) info message faithful fits e in
      (message, sent, ground (arith, received-message message info back))
