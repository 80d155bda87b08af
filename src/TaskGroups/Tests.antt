-- ===== src/TaskGroups/Tests.antt =====
-- A configuration with one task and a gob writer, whose manager accepts one packet and is stopped.
use go2net_spectra.Base.{
  ℕ, ◌≡◌, refl, arith, Bytes, text, bytes_eq, List, [], ◌∷◌, Option, none, some, Bool, true, false,
  length, get_elem?,
}
use go2net_spectra.Packet.{PacketInfo}
use go2net_spectra.ExactTask.{Task, SnapshotData}
use go2net_spectra.ExactTask.Shards.{flow_of}
use go2net_spectra.ExactTask.Aggregate.{matching, record_of}
use go2net_spectra.Persistent.Queue.{count}
use go2net_spectra.Manager.{
  TaskOps, Manager, Event, all_tasks, arrives, sends, takes, processes, returns, closes_channel,
  closes_done, step, Reach, here, next, start_manager, start_snapshotters,
}
use go2net_spectra.Manager.Exact.{exact_ops, accepted_count}
use go2net_spectra.TaskGroups.{WriterDef, ExactTaskDef, exact_tasks, exact_group, make_writers}
use go2net_spectra.TaskGroups.Configured.{configured_exact_records}

abbrev show_ip : Bytes → Bytes
show_ip b = text "ip"

-- Stands for the hash that picks a shard.
abbrev count_bytes : Bytes → ℕ
count_bytes b = length b

abbrev parse : Bytes → Option ℕ
parse b = some (length b)

abbrev connects : WriterDef → Bool
connects w = false

abbrev writers : List WriterDef
writers = record { kind = text "gob"; enabled = true; snapshot_interval = text "10s" } ∷ []

abbrev def : ExactTaskDef
def = record { name = text "t"; num_shards = 3; key_fields = text "DstPort" ∷ [] }

abbrev packet : PacketInfo
packet = record {
  timestamp = 5;
  five_tuple = record { src_ip = []; dst_ip = []; src_port = 1; dst_port = 2; protocol = 6 };
  length = 100;
}

abbrev ops : TaskOps Task PacketInfo SnapshotData
ops = exact_ops show_ip count_bytes

abbrev first : Manager Task PacketInfo SnapshotData
first =
    start_manager (exact_tasks (def ∷ [])) (exact_group parse connects writers (def ∷ []) ∷ []) 1 1

abbrev go :
    Manager Task PacketInfo SnapshotData → Event PacketInfo → Manager Task PacketInfo SnapshotData
go m e = elim (step ops m e) [ none ↦ m | some v ↦ v ]

abbrev taken : Manager Task PacketInfo SnapshotData
taken = go (go (go (go first (arrives (some packet))) (sends 0)) closes_channel) takes

abbrev finished : Manager Task PacketInfo SnapshotData
finished = go (go (go (go taken (processes 0)) (processes 0)) returns) closes_done

reach_taken : Reach ops first taken
unfolding step start_manager all_tasks start_snapshotters exact_tasks exact_group make_writers
    bytes_eq
reach_taken =
    let m1 = go first (arrives (some packet)) in
    let m2 = go m1 (sends 0) in
    let m3 = go m2 closes_channel in
    let r1 : Reach ops first m1 = next here refl (arrives (some packet)) refl in
    let r2 : Reach ops first m2 = next r1 refl (sends 0) refl in
    let r3 : Reach ops first m3 = next r2 refl closes_channel refl in next r3 refl takes refl

reach_finished : Reach ops first finished
unfolding step start_manager all_tasks start_snapshotters exact_tasks exact_group make_writers
    bytes_eq
reach_finished =
    let m1 = go taken (processes 0) in
    let m2 = go m1 (processes 0) in
    let m3 = go m2 returns in
    let r1 : Reach ops first m1 = next reach_taken refl (processes 0) refl in
    let r2 : Reach ops first m2 = next r1 refl (processes 0) refl in
    let r3 : Reach ops first m3 = next r2 refl returns refl in next r3 refl closes_done refl

configured_exact_records_example :
    (task : Task) × ((ps : List PacketInfo) × (get_elem? finished.store 0 ≡ some task)
      × ((key : Bytes)
          → flow_of show_ip count_bytes task key
            ≡ record_of show_ip def.key_fields key (matching show_ip def.key_fields key ps))
      × ((test : PacketInfo → Bool) → count test ps ≡ accepted_count test finished.accepted))
unfolding step start_manager all_tasks start_snapshotters exact_tasks exact_group make_writers
    bytes_eq
configured_exact_records_example =
    configured_exact_records show_ip count_bytes parse connects writers (def ∷ []) 1 1 0 def
      finished (omega arith) refl reach_finished refl refl

skips_unknown_types :
    make_writers
      (text "gob")
      parse
      connects
      (record { kind = text "csv"; enabled = true; snapshot_interval = [] } ∷ writers)
    ≡ 3 ∷ []
unfolding make_writers bytes_eq
skips_unknown_types = refl
