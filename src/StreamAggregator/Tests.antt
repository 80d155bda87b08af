-- ===== src/StreamAggregator/Tests.antt =====
-- An aggregator over a manager with one task, and one message.
use go2net_spectra.Base.{ℕ, ◌+◌, ◌≡◌, refl, Bytes, [], ◌∷◌, Option, some, true, false, length}
use go2net_spectra.Manager.{TaskOps, Manager, Reach, start_manager}
use go2net_spectra.StreamAggregator.{
  StreamAggregator, new_stream_aggregator, start, handle_packet, stop,
}
use go2net_spectra.StreamAggregator.Handlers.{stop_under_handler_panics}

abbrev sum_ops : TaskOps ℕ ℕ ℕ
sum_ops = record { process_packet = λ p s. s + p; reset = λ s. 0; snapshot = λ s. s }

-- Decodes every message to its length.
abbrev decode : Bytes → Option ℕ
decode msg = some (length msg)

abbrev fresh : StreamAggregator ℕ ℕ ℕ
fresh = new_stream_aggregator sum_ops (start_manager (0 ∷ []) [] 1 1)

stop_under_handler_panics_example :
    (v : Manager ℕ ℕ ℕ) × Reach sum_ops
      (stop sum_ops (handle_packet sum_ops decode (1 ∷ []) fresh)).manager
      v
    × (v.panicked ≡ true)
unfolding new_stream_aggregator start_manager
stop_under_handler_panics_example =
    stop_under_handler_panics sum_ops decode (1 ∷ []) 1 fresh refl refl refl

start_without_nats : start sum_ops false true fresh ≡ (true, fresh)
unfolding start
start_without_nats = refl
