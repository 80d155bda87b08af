-- ===== src/Persistent/Tests.antt =====
-- A worker with one goroutine and room for two containers: one is accepted, then `Stop` is called.
use go2net_spectra.Base.{
  ℕ, ◌≤◌, ◌⊎◌, ◌+◌, ◌==◌, ◌≡◌, refl, text, bytes_eq, [], ◌∷◌, none, some, true, false, length,
}
use go2net_spectra.Persistent.{
  PersistenceConfig, Worker, started, new_worker, fresh_worker, Event, checks, sends, marks,
  signals, closes, finishes, takes, writes, returns, step, Reach, here, next,
}
use go2net_spectra.Persistent.Queue.{count, stopped_handles_all}
use go2net_spectra.Persistent.Late.{late_send_panics}
use go2net_spectra.Persistent.Drain.{stop_completes}

abbrev cfg : PersistenceConfig
cfg = record { path = text "out"; num_workers = 0; encoding = text "gob"; channel_buffer_size = 2 }

abbrev w0 : Worker ℕ
w0 = fresh_worker 2 1

made : new_worker true true true cfg ≡ started w0
unfolding new_worker bytes_eq
made = refl

-- The state after a step.
abbrev go : Worker ℕ → Event ℕ → Worker ℕ
go w e = elim (step w e) [ none ↦ w | some v ↦ v ]

abbrev waiting : Worker ℕ
waiting = go w0 (checks 7)

abbrev queued : Worker ℕ
queued = go waiting (sends 0)

abbrev stopped : Worker ℕ
stopped = go (go queued marks) signals

abbrev ended : Worker ℕ
ended = go (go (go (go (go stopped closes) takes) (writes true 0)) returns) finishes

reach_waiting : Reach w0 waiting
unfolding step fresh_worker
reach_waiting = next here refl (checks 7) refl

reach_queued : Reach w0 queued
unfolding step fresh_worker
reach_queued = next reach_waiting refl (sends 0) refl

reach_stopped : Reach w0 stopped
unfolding step fresh_worker
reach_stopped =
    let marked : Reach w0 (go queued marks) = next reach_queued refl marks refl in
    next marked refl signals refl

-- `Stop` goes on from any of these states to its end.
reach_ended : {w : Worker ℕ} → Reach w stopped → Reach w ended
unfolding step fresh_worker
reach_ended r =
    let w1 = go stopped closes in
    let w2 = go w1 takes in
    let w3 = go w2 (writes true 0) in
    let w4 = go w3 returns in
    let r1 : Reach _ w1 = next r refl closes refl in
    let r2 : Reach _ w2 = next r1 refl takes refl in
    let r3 : Reach _ w3 = next r2 refl (writes true 0) refl in
    let r4 : Reach _ w4 = next r3 refl returns refl in next r4 refl finishes refl

stopped_handles_all_example :
    (length ended.packet_chan ≤ w0.capacity)
    × (count (λ x. x == 7) ended.accepted
        ≡ count (λ x. x == 7) ended.written
          + count (λ x. x == 7) ended.failed
          + count (λ x. x == 7) ended.taken
          + count (λ x. x == 7) ended.packet_chan)
    × ((ended.done ≡ false)
        ⊎ (count (λ x. x == 7) ended.accepted
            ≡ count (λ x. x == 7) ended.written + count (λ x. x == 7) ended.failed))
unfolding step fresh_worker
stopped_handles_all_example =
    stopped_handles_all true true true cfg w0 ended (λ x. x == 7) made (reach_ended reach_stopped)

late_send_panics_example : (v : Worker ℕ) × Reach waiting v × (v.panicked ≡ true)
unfolding step fresh_worker
late_send_panics_example = late_send_panics waiting 0 7 refl refl refl refl

stop_completes_example : (v : Worker ℕ) × Reach stopped v × (v.done ≡ true) × (v.panicked ≡ false)
unfolding step fresh_worker
stop_completes_example = stop_completes true true true cfg w0 stopped made reach_stopped refl refl

drops_when_full : (go (go (go queued (checks 8)) (sends 0)) (checks 9)).checking ≡ 9 ∷ []
unfolding step fresh_worker
drops_when_full = refl
