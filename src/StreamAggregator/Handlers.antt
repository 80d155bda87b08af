-- ===== src/StreamAggregator/Handlers.antt =====
-- What becomes of the messages, before and after `Stop`.
use go2net_spectra.Base.{◌≡◌, refl, arith, Bytes, Option, some, true, false}
use go2net_spectra.Manager.{TaskOps, Manager, sends, step, Reach, here, next}
use go2net_spectra.StreamAggregator.{StreamAggregator, handle_packet, stop}

module _ {S P D : Type 0} (ops : TaskOps S P D) where
  -- A message that decodes and comes in while the aggregator runs is still at its send when `Stop` is
  -- called: then the handler can panic, since `Stop` closes the channel that it sends on.
  pub stop_under_handler_panics :
      (unmarshal : Bytes → Option P) (msg : Bytes) (p : P) (a : StreamAggregator S P D)
      → unmarshal msg ≡ some p
      → a.manager.chan_closed ≡ false
      → a.manager.panicked ≡ false
      → (v : Manager S P D) × Reach ops (stop ops (handle_packet ops unmarshal msg a)).manager v
        × (v.panicked ≡ true)
  unfolding stop handle_packet step
  stop_under_handler_panics unmarshal msg p a decoded opened alive =
      let m = (stop ops (handle_packet ops unmarshal msg a)).manager in
      let last : Manager S P D = record a.manager {
        chan_closed = true;
        sending = a.manager.sending;
        panicked = true;
      } in
      (
        last,
        next here (ground (arith, decoded, opened, alive)) (sends 0)
            (ground (arith, decoded, opened, alive)),
        refl,
      )
