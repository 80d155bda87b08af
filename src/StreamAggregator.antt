-- ===== src/StreamAggregator.antt =====
-- The stream aggregator: internal/engine/streamaggregator/stream_aggregator.go, around a manager. The
-- NATS connection and the decoding of a message are parameters. A handler that blocks at the manager's
-- channel is one of the manager's callers.
pub mod Handlers
mod Tests
use go2net_spectra.Base.{Bytes, List, [], ◌∷◌, Option, none, some, Bool, true, false, if◌then◌else◌}
use go2net_spectra.Manager.{TaskOps, Manager, arrive, close_channel}

-- `connected` is whether `nc` is set and `subscribed` whether `sub` is; `started` is whether
-- `manager.Start` was called.
pub record StreamAggregator (S P D : Type 0) : Type 0 where
  pub connected : Bool
  pub subscribed : Bool
  pub started : Bool
  pub manager : Manager S P D

module _ {S P D : Type 0} (ops : TaskOps S P D) where
  unfoldable pub new_stream_aggregator : Manager S P D → StreamAggregator S P D
  new_stream_aggregator m = record {
    connected = false;
    subscribed = false;
    started = false;
    manager = m;
  }

  -- What `manager.Stop` does first; its `sync.Once` lets it run once. What follows are the manager's
  -- own steps.
  unfoldable pub stop_manager : Manager S P D → Manager S P D
  unfolding close_channel
  stop_manager m = elim (close_channel ops m) [ none ↦ m | some v ↦ v ]

  -- `Start`, with the answers of NATS to the connection and to the subscription: whether it returns an
  -- error, and the aggregator afterwards.
  unfoldable pub start : Bool → Bool → StreamAggregator S P D → Bool × StreamAggregator S P D
  unfolding stop_manager
  start connects subscribes a =
      if connects
      then if subscribes
        then (false, record a { connected = true; subscribed = true; started = true })
        else (
          true,
          record a { connected = false; started = true; manager = stop_manager a.manager },
        )
      else (true, a)

  -- `handlePacket`, up to its send.
  unfoldable pub handle_packet :
      (Bytes → Option P) → Bytes → StreamAggregator S P D → StreamAggregator S P D
  unfolding arrive
  handle_packet unmarshal msg a = elim (unmarshal msg) [
    | none ↦ a
    | some p ↦ record a { manager = arrive ops (some p) a.manager }
  ]

  -- `Stop`: `Unsubscribe` and `Drain` return before a handler that is running does, and an error of
  -- theirs is only logged.
  unfoldable pub stop : StreamAggregator S P D → StreamAggregator S P D
  unfolding stop_manager
  stop a = record a { manager = stop_manager a.manager }
