-- ===== src/Manager/Tests.antt =====
-- A manager with one task, one writer, one worker and room for one packet: it accepts a packet, and
-- `Stop` is called.
use go2net_spectra.Base.{
  ℕ, ◌+◌, ◌==◌, ◌≡◌, refl, arith, Bytes, text, List, [], ◌∷◌, none, some, Bool, true, length,
  get_elem?,
}
use go2net_spectra.Packet.{PacketInfo}
use go2net_spectra.ExactTask.{Task, SnapshotData, new_task}
use go2net_spectra.ExactTask.Shards.{flow_of}
use go2net_spectra.ExactTask.Aggregate.{matching, record_of}
use go2net_spectra.Factory.{TaskGroup}
use go2net_spectra.Persistent.Queue.{count}
use go2net_spectra.Manager.{
  TaskOps, Manager, Event, all_tasks, arrives, sends, takes, processes, returns, begins_round,
  writes, closes_channel, closes_done, step, Reach, here, next, start_manager, start_snapshotters,
  Snapshotter,
}
use go2net_spectra.Manager.Work.{occurs, seen, weight}
use go2net_spectra.Manager.Exact.{exact_ops, accepted_count, done_exact_records}
use go2net_spectra.Manager.Final.{last_snapshot_sees_all}

abbrev groups : List TaskGroup
groups = record { tasks = 0 ∷ []; writers = 5 ∷ 0 ∷ [] } ∷ []

-- The same run for any kind of task.
module _ {S P D : Type 0} (ops : TaskOps S P D) (task : S) (p : P) where
  abbrev first : Manager S P D
  first = start_manager (task ∷ []) groups 1 1

  abbrev go : Manager S P D → Event P → Manager S P D
  go m e = elim (step ops m e) [ none ↦ m | some v ↦ v ]

  abbrev queued : Manager S P D
  queued = go (go first (arrives (some p))) (sends 0)

  abbrev processing : Manager S P D
  processing = go (go queued closes_channel) takes

  abbrev processed_all : Manager S P D
  processed_all = go (go (go processing (processes 0)) (processes 0)) returns

  abbrev last_round : Manager S P D
  last_round = go (go processed_all closes_done) (begins_round true 0)

  reach_queued : Reach ops first queued
  unfolding step start_manager all_tasks start_snapshotters
  reach_queued =
      let m1 = go first (arrives (some p)) in
      let r1 : Reach ops first m1 = next here refl (arrives (some p)) refl in
      next r1 refl (sends 0) refl

  reach_processing : Reach ops first processing
  unfolding step start_manager all_tasks start_snapshotters
  reach_processing =
      let r1 : Reach ops first (go queued closes_channel) =
        next reach_queued refl closes_channel refl in
      next r1 refl takes refl

  reach_processed_all : Reach ops first processed_all
  unfolding step start_manager all_tasks start_snapshotters
  reach_processed_all =
      let m1 = go processing (processes 0) in
      let m2 = go m1 (processes 0) in
      let r1 : Reach ops first m1 = next reach_processing refl (processes 0) refl in
      let r2 : Reach ops first m2 = next r1 refl (processes 0) refl in next r2 refl returns refl

  reach_last_round : Reach ops first last_round
  unfolding step start_manager all_tasks start_snapshotters
  reach_last_round =
      let r1 : Reach ops first (go processed_all closes_done) =
        next reach_processed_all refl closes_done refl in
      next r1 refl (begins_round true 0) refl

-- A task that adds up what it sees.
abbrev sum_ops : TaskOps ℕ ℕ ℕ
sum_ops = record { process_packet = λ p s. s + p; reset = λ s. 0; snapshot = λ s. s }

abbrev at_last : Manager ℕ ℕ ℕ
at_last = last_round sum_ops 0 7

abbrev snapshotter : Snapshotter
snapshotter = record { tasks = 0 ∷ []; pending = 0 ∷ []; last = true; returned = Bool.false }

last_snapshot_sees_all_example :
    let v = go sum_ops 0 7 at_last (writes 0 0) in
    (t : ℕ) × ((task : ℕ) × (get_elem? at_last.store t ≡ some task)
      × (v.written ≡ (0, t, task) ∷ at_last.written)
      × (seen t (λ p. p == 7) at_last.log
          ≡ weight t (λ p. p == 7) (occurs t (all_tasks groups)) at_last.accepted))
unfolding step start_manager all_tasks start_snapshotters
last_snapshot_sees_all_example =
    last_snapshot_sees_all sum_ops (0 ∷ []) groups 1 1 (λ p. p == 7) at_last
      (go sum_ops 0 7 at_last (writes 0 0)) 0 0 snapshotter (omega arith)
      (reach_last_round sum_ops 0 7) refl refl refl

abbrev show_ip : Bytes → Bytes
show_ip b = text "ip"

-- Stands for the hash that picks a shard.
abbrev count_bytes : Bytes → ℕ
count_bytes b = length b

abbrev packet : PacketInfo
packet = record {
  timestamp = 5;
  five_tuple = record { src_ip = []; dst_ip = []; src_port = 1; dst_port = 2; protocol = 6 };
  length = 100;
}

abbrev fields : List Bytes
fields = text "DstPort" ∷ []

abbrev ops : TaskOps Task PacketInfo SnapshotData
ops = exact_ops show_ip count_bytes

abbrev at_end : Manager Task PacketInfo SnapshotData
at_end = last_round ops (new_task (text "t") fields 3) packet

done_exact_records_example :
    (task : Task) × ((ps : List PacketInfo) × (get_elem? at_end.store 0 ≡ some task)
      × ((key : Bytes)
          → flow_of show_ip count_bytes task key
            ≡ record_of show_ip fields key (matching show_ip fields key ps))
      × ((test : PacketInfo → Bool) → count test ps ≡ accepted_count test at_end.accepted))
unfolding step start_manager all_tasks start_snapshotters
done_exact_records_example =
    done_exact_records show_ip count_bytes (new_task (text "t") fields 3 ∷ []) groups 1 1 0 at_end
      (text "t") fields 3 (omega arith) refl refl
      (reach_last_round ops (new_task (text "t") fields 3) packet) refl refl

sums_up : (go sum_ops 0 7 at_last (writes 0 0)).written ≡ (0, 0, 7) ∷ []
unfolding step start_manager all_tasks start_snapshotters
sums_up = refl
