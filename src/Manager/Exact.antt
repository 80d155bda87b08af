-- ===== src/Manager/Exact.antt =====
-- The manager with the exact tasks of internal/engine/impl/exact/task.go, from the channel to the
-- records of the flows.
use go2net_spectra.Base.{
  ℕ, zero, suc, ◌<◌, ◌≡◌, ◌==◌, refl, ap, ◌∙◌, arith, Bytes, List, [], ◌∷◌, Option, none, some,
  Bool, true, false, get_elem?, if◌then◌else◌,
}
use go2net_spectra.Packet.{PacketInfo}
use go2net_spectra.ExactTask.{Task, SnapshotData, new_task, process_packet, reset, snapshot}
use go2net_spectra.ExactTask.Shards.{flow_of}
use go2net_spectra.ExactTask.Aggregate.{after, matching, record_of, flow_of-after}
use go2net_spectra.Factory.{TaskGroup}
use go2net_spectra.Persistent.Queue.{count}
use go2net_spectra.Manager.{
  TaskOps, Op, processed, was_reset, Manager, all_tasks, update_at, Reach, start_manager,
}
use go2net_spectra.Manager.Work.{occurs, seen, weight}
use go2net_spectra.Manager.Counts.{replay, done_sees_all}

-- `model.Task` as the exact task implements it.
unfoldable pub exact_ops : (Bytes → Bytes) → (Bytes → ℕ) → TaskOps Task PacketInfo SnapshotData
unfolding process_packet reset snapshot
exact_ops ip_string shard_hash = record {
  process_packet = λ p t. process_packet ip_string shard_hash t p;
  reset = reset;
  snapshot = snapshot;
}

-- How often a task was reset.
abbrev pub resets_of : {P : Type 0} → ℕ → List (Op P) → ℕ
resets_of t [] = 0
resets_of t (processed u p ∷ log) = resets_of t log
resets_of t (was_reset u ∷ log) = let rest = resets_of t log in if u == t then suc rest else rest

-- The packets that a task has seen, the latest first.
abbrev pub packets_of : {P : Type 0} → ℕ → List (Op P) → List P
packets_of t [] = []
packets_of t (processed u p ∷ log) =
    let rest = packets_of t log in if u == t then p ∷ rest else rest
packets_of t (was_reset u ∷ log) = packets_of t log

count-packets_of :
    {P : Type 0} (t : ℕ) (test : P → Bool) (log : List (Op P))
    → count test (packets_of t log) ≡ seen t test log
count-packets_of t test [] = refl
count-packets_of t test (processed u p ∷ log) = ground (arith, count-packets_of t test log)
count-packets_of t test (was_reset u ∷ log) = count-packets_of t test log

-- `weight` with one task in the groups is a count of the packets.
abbrev pub accepted_count : {P : Type 0} → (P → Bool) → List (Option P) → ℕ
accepted_count test [] = 0
accepted_count test (none ∷ ps) = accepted_count test ps
accepted_count test (some p ∷ ps) =
    let rest = accepted_count test ps in if test p then suc rest else rest

weight_one :
    {P : Type 0} (t : ℕ) (test : P → Bool) (ps : List (Option P))
    → weight t test 1 ps ≡ accepted_count test ps
weight_one t test [] = refl
weight_one t test (none ∷ ps) = weight_one t test ps
weight_one t test (some p ∷ ps) = ground (arith, weight_one t test ps)

get_elem?-update_at :
    {A : Type 0} (f : A → A) (xs : List A) (i j : ℕ) (x : A)
    → get_elem? xs j ≡ some x
    → get_elem? (update_at f xs i) j ≡ some (if i == j then f x else x)
get_elem?-update_at f [] i j x e = cc e
get_elem?-update_at f (y ∷ xs) zero zero x e = ground (arith, e)
get_elem?-update_at f (y ∷ xs) zero (suc j) x e = ground (arith, e)
get_elem?-update_at f (y ∷ xs) (suc i) zero x e = ground (arith, e)
get_elem?-update_at f (y ∷ xs) (suc i) (suc j) x e =
    ground (arith, get_elem?-update_at f xs i j x e)

module _ (ip_string : Bytes → Bytes) (shard_hash : Bytes → ℕ) where
  get_elem?-replay :
      (store : List Task) (t : ℕ) (task : Task) (log : List (Op PacketInfo))
      → get_elem? store t ≡ some task
      → resets_of t log ≡ 0
      → get_elem? (replay (exact_ops ip_string shard_hash) store log) t
        ≡ some (after ip_string shard_hash task (packets_of t log))
  unfolding exact_ops
  get_elem?-replay store t task [] there calm = there
  get_elem?-replay store t task (processed u p ∷ log) there calm =
      let ih = get_elem?-replay store t task log there calm in
      let old = replay (exact_ops ip_string shard_hash) store log in
      ground (
        arith,
        ih,
        get_elem?-update_at (λ x. process_packet ip_string shard_hash x p) old u t
            (after ip_string shard_hash task (packets_of t log)) ih,
      )
  get_elem?-replay store t task (was_reset u ∷ log) there calm =
      let other : (u == t) ≡ false = ground (arith, calm) in
      let ih = get_elem?-replay store t task log there (ground (arith, calm)) in
      let old = replay (exact_ops ip_string shard_hash) store log in
      ground (
        arith,
        ih,
        other,
        get_elem?-update_at reset old u t (after ip_string shard_hash task (packets_of t log)) ih,
      )

  -- A manager over exact tasks, with a worker at least, once `done` is closed: a task that stands once
  -- in the groups, started empty and was not reset holds for every key the record of a list of
  -- packets, and that list has every packet that the manager accepted exactly as often as it was
  -- accepted, counted by any test.
  pub done_exact_records :
      (store : List Task) (gs : List TaskGroup) (capacity workers t : ℕ)
      (m : Manager Task PacketInfo SnapshotData) (name : Bytes) (fs : List Bytes) (n : ℕ)
      → 0 < workers
      → get_elem? store t ≡ some (new_task name fs n)
      → occurs t (all_tasks gs) ≡ 1
      → Reach (exact_ops ip_string shard_hash) (start_manager store gs capacity workers) m
      → m.done ≡ true
      → resets_of t m.log ≡ 0
      → (task : Task) × ((ps : List PacketInfo) × (get_elem? m.store t ≡ some task)
          × ((key : Bytes)
              → flow_of ip_string shard_hash task key
                ≡ record_of ip_string fs key (matching ip_string fs key ps))
          × ((test : PacketInfo → Bool) → count test ps ≡ accepted_count test m.accepted))
  done_exact_records store gs capacity workers t m name fs n some_worker there once r d calm =
      let ops = exact_ops ip_string shard_hash in
      let ps = packets_of t m.log in
      let (seen_all, same) =
        done_sees_all ops store gs capacity workers t (λ _. true) m some_worker r d in
      (
        after ip_string shard_hash (new_task name fs n) ps,
        (
          ps,
          ap (λ s. get_elem? s t) same
              ∙ get_elem?-replay store t (new_task name fs n) m.log there calm,
          λ key. flow_of-after ip_string shard_hash name fs n ps key,
          λ test.
              let (all, again) =
                done_sees_all ops store gs capacity workers t test m some_worker r d in
              count-packets_of t test m.log
              ∙ (all ∙ (ap (λ k. weight t test k m.accepted) once ∙ weight_one t test m.accepted)),
        ),
      )
