-- ===== src/TaskGroups/Configured.antt =====
-- A manager over the exact tasks of a configuration, from the configuration to the records.
use go2net_spectra.Base.{
  ℕ, zero, suc, ◌+◌, ◌<◌, ◌≤◌, ◌==◌, ◌≡◌, refl, ap, ◌∙◌, arith, Bytes, List, [], ◌∷◌, ◌++◌, length,
  get_elem?, Option, some, Bool, true, Bool-cases, inl, inr,
}
use go2net_spectra.Packet.{PacketInfo}
use go2net_spectra.ExactTask.{Task, SnapshotData, new_task}
use go2net_spectra.ExactTask.Shards.{flow_of}
use go2net_spectra.ExactTask.Aggregate.{matching, record_of}
use go2net_spectra.Persistent.Queue.{count}
use go2net_spectra.Manager.{Manager, all_tasks, Reach, start_manager}
use go2net_spectra.Manager.Work.{occurs}
use go2net_spectra.Manager.Exact.{exact_ops, resets_of, accepted_count, done_exact_records}
use go2net_spectra.TaskGroups.{WriterDef, ExactTaskDef, exact_tasks, places, exact_group}

occurs-places_below : (t first n : ℕ) → t < first → occurs t (places first n) ≡ 0
occurs-places_below t first zero h = refl
occurs-places_below t first (suc n) h =
    ground (arith, occurs-places_below t (suc first) n (omega arith))

occurs-places : (t first n : ℕ) → first ≤ t → t < first + n → occurs t (places first n) ≡ 1
occurs-places t first zero low high = absurd (omega arith)
occurs-places t first (suc n) low high = elim (Bool-cases (first == t)) [
  | inl e ↦ ground (arith, e, occurs-places_below t (suc first) n (ground (arith, e)))
  | inr e ↦ ground (arith, e, occurs-places t (suc first) n (ground (arith, e, low)) (omega arith))
]

get_elem?-exact_tasks :
    (defs : List ExactTaskDef) (i : ℕ) (d : ExactTaskDef)
    → get_elem? defs i ≡ some d
    → (get_elem? (exact_tasks defs) i ≡ some (new_task d.name d.key_fields d.num_shards))
      × (i < length defs)
unfolding exact_tasks
get_elem?-exact_tasks [] i d e = cc e
get_elem?-exact_tasks (x ∷ defs) zero d e =
    let same : x ≡ d = ground (arith, e) in
    (ap (λ (y : ExactTaskDef). some (new_task y.name y.key_fields y.num_shards)) same, omega arith)
get_elem?-exact_tasks (x ∷ defs) (suc i) d e =
    let (there, below) = get_elem?-exact_tasks defs i d e in (there, omega arith)

append_nil : (xs : List ℕ) → xs ++ [] ≡ xs
append_nil [] = refl
append_nil (x ∷ xs) = ap (λ l. x ∷ l) (append_nil xs)

occurs-exact_group :
    (parse : Bytes → Option ℕ) (connects : WriterDef → Bool) (writers : List WriterDef)
    (defs : List ExactTaskDef) (i : ℕ)
    → i < length defs
    → occurs i (all_tasks (exact_group parse connects writers defs ∷ [])) ≡ 1
unfolding exact_group all_tasks
occurs-exact_group parse connects writers defs i below =
    ap (occurs i) (append_nil (places 0 (length defs)))
    ∙ occurs-places i 0 (length defs) (omega arith) (omega arith)

module _ (ip_string : Bytes → Bytes) (shard_hash : Bytes → ℕ) where
  -- A manager with a worker at least over the tasks that the exact factory makes of a configuration,
  -- under every order of its goroutines' steps, once `done` is closed: every configured task that was
  -- not reset holds for every key the record, under the task's own key fields, of a list of packets
  -- that has every packet that the manager accepted exactly as often as it was accepted.
  pub configured_exact_records :
      (parse : Bytes → Option ℕ) (connects : WriterDef → Bool) (writers : List WriterDef)
      (defs : List ExactTaskDef) (capacity workers i : ℕ) (d : ExactTaskDef)
      (m : Manager Task PacketInfo SnapshotData)
      → 0 < workers
      → get_elem? defs i ≡ some d
      → Reach
          (exact_ops ip_string shard_hash)
          (start_manager
            (exact_tasks defs)
            (exact_group parse connects writers defs ∷ [])
            capacity
            workers)
          m
      → m.done ≡ true
      → resets_of i m.log ≡ 0
      → (task : Task) × ((ps : List PacketInfo) × (get_elem? m.store i ≡ some task)
          × ((key : Bytes)
              → flow_of ip_string shard_hash task key
                ≡ record_of ip_string d.key_fields key (matching ip_string d.key_fields key ps))
          × ((test : PacketInfo → Bool) → count test ps ≡ accepted_count test m.accepted))
  configured_exact_records parse connects writers defs capacity workers i d m some_worker e r over
        calm =
      let (there, below) = get_elem?-exact_tasks defs i d e in
      done_exact_records ip_string shard_hash (exact_tasks defs)
        (exact_group parse connects writers defs ∷ []) capacity workers i m d.name d.key_fields
        d.num_shards some_worker there (occurs-exact_group parse connects writers defs i below) r
        over calm
