-- ===== src/Manager/Counts.antt =====
-- The workers are counted, the store is what the log of methods makes of it, and `done` is closed only
-- when nothing is left to process.
use go2net_spectra.Base.{
  ℕ, ◌+◌, ◌<◌, ◌≡◌, refl, arith, List, [], ◌∷◌, Option, none, some, Bool, true, length, length-set,
  get_elem?, ◌⊎◌, inl, inr, Option-cases,
}
use go2net_spectra.Factory.{TaskGroup}
use go2net_spectra.Persistent.Queue.{length-remove_at}
use go2net_spectra.Manager.{
  TaskOps, Op, processed, was_reset, Manager, Event, all_tasks, update_at, arrives, sends,
  hands_over, takes, processes, returns, begins_reset, resets, resetter_returns, begins_round,
  writes, snapshotter_returns, closes_channel, closes_done, ends, step, Reach, here, next,
  start_manager,
}
use go2net_spectra.Manager.Work.{occurs, seen, owed, weight, Conserved, step-Conserved}

module _ {S P D : Type 0} (ops : TaskOps S P D) where
  -- The store after the methods of a log, whose latest comes first.
  abbrev pub replay : List S → List (Op P) → List S
  replay store [] = store
  replay store (processed t p ∷ log) = update_at (ops.process_packet p) (replay store log) t
  replay store (was_reset t ∷ log) = update_at ops.reset (replay store log) t

  -- n workers, of which one returns only when the channel is closed and empty.
  pub record Pool (n : ℕ) (m : Manager S P D) : Type 0 where
    pub staff :
        (m.idle + length m.busy ≡ n) ⊎ ((m.chan_closed ≡ true) × (length m.packet_channel ≡ 0))
    pub ended : m.done ≡ true → (m.idle + length m.busy ≡ 0) × (m.chan_closed ≡ true)

  step-Pool :
      (n : ℕ) (m v : Manager S P D) (e : Event P) → step ops m e ≡ some v → Pool n m → Pool n v
  unfolding step
  step-Pool n m v (arrives p) e k = ground (arith, e)
  step-Pool n m v (sends i) e k = elim (Option-cases (get_elem? m.sending i)) [
    | inl none' ↦ absurd (ground (arith, e, none'))
    | inr (p, here') ↦ ground (arith, e, here', k.ended)
  ]
  step-Pool n m v (hands_over i) e k = elim (Option-cases (get_elem? m.sending i)) [
    | inl none' ↦ absurd (ground (arith, e, none'))
    | inr (none, here') ↦ ground (arith, e, here', k.ended)
    | inr (some p, here') ↦ ground (arith, e, here', k.ended)
  ]
  step-Pool n m v takes e k = take_lem m.packet_channel refl
    where
      take_lem : (q : List (Option P)) → m.packet_channel ≡ q → Pool n v
      take_lem [] same = absurd (ground (arith, e, same))
      take_lem (none ∷ q) same = ground (arith, e, same, k.ended)
      take_lem (some p ∷ q) same = ground (arith, e, same, k.ended)
  step-Pool n m v (processes i) e k = elim (Option-cases (get_elem? m.busy i)) [
    | inl none' ↦ absurd (ground (arith, e, none'))
    | inr ((p, []), here') ↦
        ground (arith, e, here', k.ended, length-remove_at m.busy i (p, []) here')
    | inr ((p, u ∷ ts), here') ↦ ground (arith, e, here', k.ended, length-set {0} m.busy i (p, ts))
  ]
  step-Pool n m v returns e k = ground (arith, e, k.ended)
  step-Pool n m v begins_reset e k = ground (arith, e)
  step-Pool n m v (resets i) e k = ground (arith, e)
  step-Pool n m v resetter_returns e k = ground (arith, e)
  step-Pool n m v (begins_round last j) e k = ground (arith, e)
  step-Pool n m v (writes j i) e k = ground (arith, e)
  step-Pool n m v (snapshotter_returns j) e k = ground (arith, e)
  step-Pool n m v closes_channel e k = ground (arith, e, k.ended)
  step-Pool n m v closes_done e k = ground (arith, e)
  step-Pool n m v ends e k = ground (arith, e)

  step-replay :
      (store : List S) (m v : Manager S P D) (e : Event P)
      → step ops m e ≡ some v
      → m.store ≡ replay store m.log
      → v.store ≡ replay store v.log
  unfolding step
  step-replay store m v (arrives p) e k = ground (arith, e, k)
  step-replay store m v (sends i) e k = ground (arith, e, k)
  step-replay store m v (hands_over i) e k = elim (Option-cases (get_elem? m.sending i)) [
    | inl none' ↦ absurd (ground (arith, e, none'))
    | inr (none, here') ↦ ground (arith, e, here', k)
    | inr (some p, here') ↦ ground (arith, e, here', k)
  ]
  step-replay store m v takes e k = take_lem m.packet_channel refl
    where
      take_lem : (q : List (Option P)) → m.packet_channel ≡ q → v.store ≡ replay store v.log
      take_lem [] same = absurd (ground (arith, e, same))
      take_lem (none ∷ q) same = ground (arith, e, same, k)
      take_lem (some p ∷ q) same = ground (arith, e, same, k)
  step-replay store m v (processes i) e k = elim (Option-cases (get_elem? m.busy i)) [
    | inl none' ↦ absurd (ground (arith, e, none'))
    | inr ((p, []), here') ↦ ground (arith, e, here', k)
    | inr ((p, u ∷ ts), here') ↦ ground (arith, e, here', k)
  ]
  step-replay store m v returns e k = ground (arith, e, k)
  step-replay store m v begins_reset e k = ground (arith, e, k)
  step-replay store m v (resets i) e k = ground (arith, e, k)
  step-replay store m v resetter_returns e k = ground (arith, e, k)
  step-replay store m v (begins_round last j) e k = ground (arith, e, k)
  step-replay store m v (writes j i) e k = ground (arith, e, k)
  step-replay store m v (snapshotter_returns j) e k = ground (arith, e, k)
  step-replay store m v closes_channel e k = ground (arith, e, k)
  step-replay store m v closes_done e k = ground (arith, e, k)
  step-replay store m v ends e k = ground (arith, e, k)

  start_manager-Conserved :
      (store : List S) (gs : List TaskGroup) (capacity workers t : ℕ) (test : P → Bool)
      → Conserved ops gs t test (start_manager store gs capacity workers)
  unfolding start_manager
  start_manager-Conserved store gs capacity workers t test = record { groups = refl; kept = refl }

  start_manager-Pool :
      (store : List S) (gs : List TaskGroup) (capacity workers : ℕ)
      → Pool workers (start_manager store gs capacity workers)
  unfolding start_manager
  start_manager-Pool store gs capacity workers = ground arith

  start_manager-replay :
      (store : List S) (gs : List TaskGroup) (capacity workers : ℕ)
      → let m = start_manager {D = D} store gs capacity workers in m.store ≡ replay store m.log
  unfolding start_manager
  start_manager-replay store gs capacity workers = refl

  Reach-Conserved :
      (gs : List TaskGroup) (t : ℕ) (test : P → Bool) {m v : Manager S P D}
      → Reach ops m v
      → Conserved ops gs t test m
      → Conserved ops gs t test v
  Reach-Conserved gs t test here k = k
  Reach-Conserved gs t test (next {u} {v} r alive e at) k =
      step-Conserved ops gs t test u v e at (Reach-Conserved gs t test r k)

  Reach-Pool : (n : ℕ) {m v : Manager S P D} → Reach ops m v → Pool n m → Pool n v
  Reach-Pool n here k = k
  Reach-Pool n (next {u} {v} r alive e at) k = step-Pool n u v e at (Reach-Pool n r k)

  Reach-replay :
      (store : List S) {m v : Manager S P D}
      → Reach ops m v
      → m.store ≡ replay store m.log
      → v.store ≡ replay store v.log
  Reach-replay store here k = k
  Reach-replay store (next {u} {v} r alive e at) k =
      step-replay store u v e at (Reach-replay store r k)

  nil_busy : (t : ℕ) (test : P → Bool) (b : List (P × List ℕ)) → length b ≡ 0 → owed t test b ≡ 0
  nil_busy t test [] e = refl
  nil_busy t test (x ∷ b) e = absurd (omega arith)

  nil_channel :
      (t k : ℕ) (test : P → Bool) (q : List (Option P)) → length q ≡ 0 → weight t test k q ≡ 0
  nil_channel t k test [] e = refl
  nil_channel t k test (x ∷ q) e = absurd (omega arith)

  -- A manager that was started with a worker at least, under every order of its goroutines' steps, once
  -- `done` is closed, so in every last snapshot: each task has seen each packet that the manager ever
  -- accepted, as often as it stands in the groups (the packets are counted by any test), and the
  -- states of the tasks are what the methods of the log, in their order, make of the first ones.
  pub done_sees_all :
      (store : List S) (gs : List TaskGroup) (capacity workers t : ℕ) (test : P → Bool)
      (m : Manager S P D)
      → 0 < workers
      → Reach ops (start_manager store gs capacity workers) m
      → m.done ≡ true
      → (seen t test m.log ≡ weight t test (occurs t (all_tasks gs)) m.accepted)
        × (m.store ≡ replay store m.log)
  done_sees_all store gs capacity workers t test m some_worker r d =
      let pool = Reach-Pool workers r (start_manager-Pool store gs capacity workers) in
      let kept =
        Reach-Conserved gs t test r (start_manager-Conserved store gs capacity workers t test) in
      let (none_left, closed) = pool.ended d in
      let idle_now : length m.busy ≡ 0 = omega arith in
      let empty : length m.packet_channel ≡ 0 =
        ground (arith, pool.staff, none_left, some_worker) in
      (
        omega (
          arith,
          kept.kept,
          nil_busy t test m.busy idle_now,
          nil_channel t (occurs t (all_tasks gs)) test m.packet_channel empty,
        ),
        Reach-replay store r (start_manager-replay store gs capacity workers),
      )
