-- ===== src/Persistent/Late.antt =====
-- `Enqueue` reads `stopping` and sends in two steps. A caller between the two when the channel is closed
-- panics; without such a caller nothing does.
use go2net_spectra.Base.{ℕ, ◌≡◌, refl, arith, [], some, true, false, get_elem?}
use go2net_spectra.Persistent.{
  Worker, Event, remove_at, checks, sends, marks, signals, closes, finishes, takes, writes, returns,
  step, Reach, here, next,
}

-- From any state in which a caller of `Enqueue` has found the worker running, and `Stop` has not yet
-- been called, the goroutines can reach a panic: `Stop` closes the channel first, and then the caller
-- sends.
pub late_send_panics :
    {A : Type 0} (w : Worker A) (i : ℕ) (c : A)
    → w.panicked ≡ false
    → get_elem? w.checking i ≡ some c
    → w.stop_chan_closed ≡ false
    → w.chan_closed ≡ false
    → (v : Worker A) × Reach w v × (v.panicked ≡ true)
unfolding step
late_send_panics w i c alive waiting running opened =
    let marked = record w { stopping = true } in
    let signalled = record marked { stop_chan_closed = true } in
    let closed = record signalled { chan_closed = true } in
    let last = record closed { checking = remove_at w.checking i; panicked = true } in
    let r1 : Reach w marked = next here alive marks refl in
    let r2 : Reach w signalled = next r1 alive signals (ground (arith, running)) in
    let r3 : Reach w closed = next r2 alive closes (ground (arith, opened)) in
    (last, next r3 alive (sends i) (ground (arith, waiting)), refl)

record Quiet {A : Type 0} (w : Worker A) : Type 0 where
  marked : w.stopping ≡ true
  nobody : w.checking ≡ []
  alive : w.panicked ≡ false

step-Quiet : {A : Type 0} (w v : Worker A) (e : Event A) → step w e ≡ some v → Quiet w → Quiet v
unfolding step
step-Quiet w v (checks c) e k = ground (arith, e)
step-Quiet w v (sends i) e k = ground (arith, e)
step-Quiet w v marks e k = ground (arith, e)
step-Quiet w v signals e k = ground (arith, e)
step-Quiet w v closes e k = ground (arith, e)
step-Quiet w v finishes e k = ground (arith, e)
step-Quiet w v takes e k = ground (arith, e)
step-Quiet w v (writes ok i) e k = ground (arith, e)
step-Quiet w v returns e k = ground (arith, e)

Reach-Quiet : {A : Type 0} {w v : Worker A} → Reach w v → Quiet w → Quiet v
Reach-Quiet here k = k
Reach-Quiet (next {u} {v} r alive e at) k = step-Quiet u v e at (Reach-Quiet r k)

-- Once `stopping` is set and no caller of `Enqueue` is between its two steps, no step of any goroutine
-- leads to a panic.
pub quiet_stop_safe :
    {A : Type 0} (w v : Worker A)
    → w.stopping ≡ true
    → w.checking ≡ []
    → w.panicked ≡ false
    → Reach w v
    → v.panicked ≡ false
quiet_stop_safe w v marked nobody alive r =
    (Reach-Quiet r (record { marked = marked; nobody = nobody; alive = alive })).alive
