-- ===== src/TaskGroups.antt =====
-- The factories that the two kinds of task register: the `init` functions of
-- internal/engine/impl/exact/task.go and internal/engine/impl/sketch/task.go, over the part of
-- internal/config/config.go that they read. Durations and the opening of connections are parameters.
pub mod Configured
mod Tests
use go2net_spectra.Base.{
  ℕ, zero, suc, ◌+◌, ◌==◌, Bytes, text, bytes_eq, List, [], ◌∷◌, map, length, Option, none, some,
  Bool, true, false, if◌then◌else◌,
}
use go2net_spectra.ExactTask.{Task, new_task}
use go2net_spectra.Factory.{TaskGroup}

-- `config.WriterDef`: the interval as it is written.
pub record WriterDef : Type 0 where
  pub kind : Bytes
  pub enabled : Bool
  pub snapshot_interval : Bytes

pub record ExactTaskDef : Type 0 where
  pub name : Bytes
  pub num_shards : ℕ
  pub key_fields : List Bytes

-- The intervals of the writers that are made: a writer is skipped when it is not enabled, its interval
-- does not parse, its type is unknown, or its connection fails. `plain` is the type of the writer that
-- writes files, "gob" or "text".
unfoldable pub make_writers :
    Bytes → (Bytes → Option ℕ) → (WriterDef → Bool) → List WriterDef → List ℕ
make_writers plain parse connects [] = []
make_writers plain parse connects (w ∷ writers) =
    let rest = make_writers plain parse connects writers in
    if w.enabled
    then elim (parse w.snapshot_interval) [
      | none ↦ rest
      | some interval ↦
          if bytes_eq w.kind plain
          then interval ∷ rest
          else if bytes_eq w.kind (text "clickhouse")
          then if connects w then interval ∷ rest else rest
          else rest
    ]
    else rest

-- The tasks of the exact factory.
unfoldable pub exact_tasks : List ExactTaskDef → List Task
unfolding new_task
exact_tasks [] = []
exact_tasks (d ∷ defs) = new_task d.name d.key_fields d.num_shards ∷ exact_tasks defs

-- The places of n tasks in the store, from a first one on.
abbrev pub places : ℕ → ℕ → List ℕ
places first zero = []
places first (suc n) = first ∷ places (suc first) n

-- The group of the exact factory, whose tasks come first in the store.
unfoldable pub exact_group :
    (Bytes → Option ℕ) → (WriterDef → Bool) → List WriterDef → List ExactTaskDef → TaskGroup
unfolding make_writers
exact_group parse connects writers defs = record {
  tasks = places 0 (length defs);
  writers = make_writers (text "gob") parse connects writers;
}
