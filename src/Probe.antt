-- ===== src/Probe.antt =====
-- The probe's side of NATS: internal/probe/publisher.go and subscriber.go. The connection, and the
-- serializer of the packet codec, are parameters.
pub mod Journey
mod Tests
use go2net_spectra.Base.{
  ℕ, Bytes, List, [], ◌∷◌, Option, none, some, Bool, true, false, if◌then◌else◌,
}
use go2net_spectra.Packet.{PacketInfo}
use go2net_spectra.Parser.{RawPacket}
use go2net_spectra.PacketCodec.{
  ThriftPacketInfo, CodecError, Result, ok, err, marshal_packet_info, unmarshal_packet_info,
}
use go2net_spectra.Persistent.{Worker, Started, started, refused, enqueue_check, stop_mark}

-- `PacketContainer`
abbrev pub PacketContainer : Type 0
PacketContainer = RawPacket × PacketInfo

-- `messages` are those that the NATS client took, the latest first.
pub record Publisher : Type 0 where
  pub persistence_worker : Option (Worker PacketContainer)
  pub messages : List Bytes

pub data PublishError : Type 0 where
  codec_failed : CodecError → PublishError
  nats_failed : PublishError

-- `NewPublisher`: `connects` is whether NATS answers; a worker that cannot be made is left out.
unfoldable pub new_publisher : Bool → Bool → Started (Worker PacketContainer) → Option Publisher
new_publisher connects enabled worker =
    if connects
    then if enabled
      then elim worker [
        | started w ↦ some (record { persistence_worker = some w; messages = [] })
        | refused e ↦ some (record { persistence_worker = none; messages = [] })
      ]
      else some (record { persistence_worker = none; messages = [] })
    else none

-- `Enqueue` up to its send.
abbrev pub enqueue_to : PacketContainer → Publisher → Publisher
enqueue_to c p = elim p.persistence_worker [
  | none ↦ p
  | some w ↦ record p { persistence_worker = some (enqueue_check c w) }
]

module _ (write : ThriftPacketInfo → Option Bytes) (read : Bytes → Option ThriftPacketInfo) where
  -- `Publish` of a packet that is not nil, with a buffer of the pool and the client's answer.
  unfoldable pub publish :
      Bytes → (Bytes → Bool) → RawPacket → PacketInfo → Publisher → Publisher × Option PublishError
  unfolding marshal_packet_info enqueue_check
  publish buffer takes raw info p =
      let q = enqueue_to (raw, info) p in
      elim (marshal_packet_info write read (some buffer) (some info)) [
        | err e ↦ (q, some (codec_failed e))
        | ok message ↦
            if takes message
            then (record q { messages = message ∷ p.messages }, none)
            else (q, some nats_failed)
      ]

  -- What `Subscriber.Start` does with a message: what the handler is called with.
  unfoldable pub received : Bytes → Option PacketInfo
  unfolding unmarshal_packet_info
  received message = elim (unmarshal_packet_info write read message) [
    | err e ↦ none
    | ok info ↦ some info
  ]

-- `Close` calls `Stop` of the worker, which first sets `stopping`.
unfoldable pub close : Publisher → Publisher
unfolding stop_mark
close p = elim p.persistence_worker [
  | none ↦ p
  | some w ↦ record p { persistence_worker = some (stop_mark w) }
]
