-- ===== src/Manager.antt =====
-- The manager: internal/engine/manager/manager.go. Its goroutines are those that send to its channel,
-- the workers, the resetter and a snapshotter per writer, each with one goroutine per task, and the
-- caller of `Stop`; a step is what one of them does between two points where another may run. A task's
-- own methods hold its locks, and are one step each. The tasks are a parameter.
pub mod Work
pub mod Counts
pub mod Exact
pub mod Final
mod Tests
use go2net_spectra.Base.{
  ℕ, zero, suc, ◌+◌, ◌-◌, ◌==◌, Bytes, List, [], ◌∷◌, ◌++◌, Option, none, some, Bool, true, false,
  not, ◌&&◌, ◌||◌, length, get_elem?, set, map, ltb, ◌≡◌, if◌then◌else◌,
}
use go2net_spectra.Factory.{TaskGroup, CreateError, Created, created, not_created}
use go2net_spectra.Persistent.{not_positive, remove_at}

-- What the manager uses of `model.Task`: S is a task's state, and D what it snapshots.
pub record TaskOps (S P D : Type 0) : Type 0 where
  pub process_packet : P → S → S
  pub reset : S → S
  pub snapshot : S → D

-- A task's method that has run, with the task's place.
pub data Op (P : Type 0) : Type 0 where
  processed : ℕ → P → Op P
  was_reset : ℕ → Op P

-- A snapshotter: the tasks of its group, those that its round has still to write, whether this is the
-- round after `done`, and whether it has returned.
pub record Snapshotter : Type 0 where
  pub tasks : List ℕ
  pub pending : List ℕ
  pub last : Bool
  pub returned : Bool

-- `sending` are the packets of callers that are about to send, `none` for a nil pointer. `busy` are the
-- workers with a packet, and the tasks that have yet to see it. `log` is every method that was run on a
-- task, the latest first; `accepted` and `written` too grow at the front.
pub record Manager (S P D : Type 0) : Type 0 where
  pub store : List S
  pub task_groups : List TaskGroup
  pub capacity : ℕ
  pub packet_channel : List (Option P)
  pub chan_closed : Bool
  pub sending : List (Option P)
  pub idle : ℕ
  pub busy : List (P × List ℕ)
  pub snapshotters : List Snapshotter
  pub reset_pending : List ℕ
  pub resetter_returned : Bool
  pub done : Bool
  pub stopped : Bool
  pub panicked : Bool
  pub accepted : List (Option P)
  pub log : List (Op P)
  pub written : List (ℕ × ℕ × D)

-- All tasks, group after group.
unfoldable pub all_tasks : List TaskGroup → List ℕ
all_tasks [] = []
all_tasks (g ∷ gs) = g.tasks ++ all_tasks gs

-- A list with one entry changed.
abbrev pub update_at : {A : Type 0} → (A → A) → List A → ℕ → List A
update_at f [] i = []
update_at f (x ∷ xs) zero = f x ∷ xs
update_at f (x ∷ xs) (suc i) = x ∷ update_at f xs i

-- The snapshotters of a group that do not return at once.
abbrev pub group_snapshotters : List ℕ → List ℕ → List Snapshotter
group_snapshotters tasks [] = []
group_snapshotters tasks (interval ∷ writers) =
    let rest = group_snapshotters tasks writers in
    if not_positive interval
    then rest
    else record { tasks = tasks; pending = []; last = false; returned = false } ∷ rest

unfoldable pub start_snapshotters : List TaskGroup → List Snapshotter
start_snapshotters [] = []
start_snapshotters (g ∷ gs) = group_snapshotters g.tasks g.writers ++ start_snapshotters gs

pub data ManagerError (E : Type 0) : Type 0 where
  create_failed : CreateError E → ManagerError E
  invalid_period : ManagerError E
  period_not_positive : ManagerError E
  alerter_failed : ManagerError E

pub data NewManager (E M : Type 0) : Type 0 where
  new : M → NewManager E M
  refused : ManagerError E → NewManager E M

-- `max(1, x)` on an `int`.
abbrev pub at_least_one : ℕ → ℕ
at_least_one x = if not_positive x then 1 else x

-- A manager with its goroutines started.
unfoldable pub start_manager : {S P D : Type 0} → List S → List TaskGroup → ℕ → ℕ → Manager S P D
unfolding start_snapshotters
start_manager store groups capacity workers = record {
  store = store;
  task_groups = groups;
  capacity = capacity;
  packet_channel = [];
  chan_closed = false;
  sending = [];
  idle = workers;
  busy = [];
  snapshotters = start_snapshotters groups;
  reset_pending = [];
  resetter_returned = false;
  done = false;
  stopped = false;
  panicked = false;
  accepted = [];
  log = [];
  written = [];
}

-- `NewManager` and `Start`: `creation` is what `factory.Create` returned, `period` the duration that
-- was parsed, `alerter_enabled`, `has_notifier` and `alerter_made` what becomes of the alerter, and
-- `store` the tasks that the factories made.
unfoldable pub new_manager :
    {S P D E : Type 0}
    → Created E (List TaskGroup)
    → Option ℕ
    → Bool
    → Bool
    → Bool
    → List S
    → ℕ
    → ℕ
    → NewManager E (Manager S P D)
unfolding start_manager
new_manager (not_created e) period alerter_enabled has_notifier alerter_made store capacity
      workers =
    refused (create_failed e)
new_manager (created groups) none alerter_enabled has_notifier alerter_made store capacity workers =
    refused invalid_period
new_manager (created groups) (some d) alerter_enabled has_notifier alerter_made store capacity
      workers =
    if not_positive d
    then refused period_not_positive
    else if alerter_enabled && (has_notifier && not alerter_made)
    then refused alerter_failed
    else new (start_manager store groups capacity (at_least_one workers))

-- Every snapshotter has returned.
abbrev pub all_returned : List Snapshotter → Bool
all_returned [] = true
all_returned (s ∷ ss) = s.returned && all_returned ss

-- The steps. `none` is a step that cannot be taken now.
module _ {S P D : Type 0} (ops : TaskOps S P D) where
  -- A caller comes to its send on the channel, ...
  unfoldable pub arrive : Option P → Manager S P D → Manager S P D
  arrive p m = record m { sending = p ∷ m.sending }

  -- ... which panics on a closed channel, and blocks on a full one.
  unfoldable pub send : ℕ → Manager S P D → Option (Manager S P D)
  send i m = elim (get_elem? m.sending i) [
    | none ↦ none
    | some p ↦
        let left = record m { sending = remove_at m.sending i } in
        if m.chan_closed
        then some (record left { panicked = true })
        else if ltb (length m.packet_channel) m.capacity
        then some
            (record left { packet_channel = m.packet_channel ++ p ∷ []; accepted = p ∷ m.accepted })
        else none
  ]

  -- `processPacket` begins: a nil packet is an error, which `worker` logs.
  abbrev pub begin : Option P → Manager S P D → Manager S P D
  begin none m = m
  begin (some p) m = record m { idle = m.idle - 1; busy = (p, all_tasks m.task_groups) ∷ m.busy }

  -- A send to a worker that waits at an empty channel.
  unfoldable pub hand_over : ℕ → Manager S P D → Option (Manager S P D)
  unfolding all_tasks
  hand_over i m = elim (get_elem? m.sending i) [
    | none ↦ none
    | some p ↦
        let left = record m { sending = remove_at m.sending i; accepted = p ∷ m.accepted } in
        if m.chan_closed
        then none
        else if length m.packet_channel == 0 && not (m.idle == 0)
        then some (begin p left)
        else none
  ]

  -- `worker` receives.
  unfoldable pub take_packet : Manager S P D → Option (Manager S P D)
  unfolding all_tasks
  take_packet m = elim m.packet_channel [
    | [] ↦ none
    | p ∷ q ↦ if m.idle == 0 then none else some (begin p (record m { packet_channel = q }))
  ]

  -- The worker's next task sees the packet, or the worker goes back to the channel.
  unfoldable pub process_next : ℕ → Manager S P D → Option (Manager S P D)
  process_next i m = elim (get_elem? m.busy i) [
    | none ↦ none
    | some (p, []) ↦ some (record m { busy = remove_at m.busy i; idle = m.idle + 1 })
    | some (p, t ∷ ts) ↦ some (record m {
      store = update_at (ops.process_packet p) m.store t;
      busy = set m.busy i (p, ts);
      log = processed t p ∷ m.log;
    })
  ]

  -- `worker` returns when the channel is closed and empty.
  unfoldable pub worker_return : Manager S P D → Option (Manager S P D)
  worker_return m =
      if m.chan_closed && (length m.packet_channel == 0 && not (m.idle == 0))
      then some (record m { idle = m.idle - 1 })
      else none

  -- `resetAllTasks` begins at a tick, resets each task, and is over when all are reset.
  unfoldable pub begin_reset : Manager S P D → Option (Manager S P D)
  unfolding all_tasks
  begin_reset m =
      if length m.reset_pending == 0 && not m.resetter_returned
      then some (record m { reset_pending = all_tasks m.task_groups })
      else none

  unfoldable pub reset_task : ℕ → Manager S P D → Option (Manager S P D)
  reset_task i m = elim (get_elem? m.reset_pending i) [
    | none ↦ none
    | some t ↦ some (record m {
      store = update_at ops.reset m.store t;
      reset_pending = remove_at m.reset_pending i;
      log = was_reset t ∷ m.log;
    })
  ]

  unfoldable pub resetter_return : Manager S P D → Option (Manager S P D)
  resetter_return m =
      if length m.reset_pending == 0 && m.done
      then some (record m { resetter_returned = true })
      else none

  -- A round of `runSnapshotter`: at a tick, or the last one when `done` is closed.
  unfoldable pub begin_round : Bool → ℕ → Manager S P D → Option (Manager S P D)
  begin_round last j m = elim (get_elem? m.snapshotters j) [
    | none ↦ none
    | some s ↦
        if length s.pending == 0 && (not s.last && (not s.returned && (m.done || not last)))
        then some (record m {
          snapshotters = set m.snapshotters j (record s { pending = s.tasks; last = last });
        })
        else none
  ]

  -- One goroutine of `takeSnapshotForWriter`: what it gives to the writer.
  unfoldable pub write_snapshot : ℕ → ℕ → Manager S P D → Option (Manager S P D)
  write_snapshot j i m = elim (get_elem? m.snapshotters j) [
    | none ↦ none
    | some s ↦ elim (get_elem? s.pending i) [
      | none ↦ none
      | some t ↦ elim (get_elem? m.store t) [
        | none ↦ none
        | some task ↦ some (record m {
          snapshotters = set m.snapshotters j (record s { pending = remove_at s.pending i });
          written = (j, t, ops.snapshot task) ∷ m.written;
        })
      ]
    ]
  ]

  unfoldable pub snapshotter_return : ℕ → Manager S P D → Option (Manager S P D)
  snapshotter_return j m = elim (get_elem? m.snapshotters j) [
    | none ↦ none
    | some s ↦
        if length s.pending == 0 && s.last
        then some (record m { snapshotters = set m.snapshotters j (record s { returned = true }) })
        else none
  ]

  -- The body of `stopOnce.Do`: it closes the channel, closes `done` when every worker has returned, and
  -- ends when every snapshotter and the resetter have.
  unfoldable pub close_channel : Manager S P D → Option (Manager S P D)
  close_channel m = if m.chan_closed then none else some (record m { chan_closed = true })

  unfoldable pub close_done : Manager S P D → Option (Manager S P D)
  close_done m =
      if m.chan_closed && (m.idle == 0 && (length m.busy == 0 && not m.done))
      then some (record m { done = true })
      else none

  unfoldable pub stop_end : Manager S P D → Option (Manager S P D)
  stop_end m =
      if m.done && (all_returned m.snapshotters && m.resetter_returned)
      then some (record m { stopped = true })
      else none

pub data Event (P : Type 0) : Type 0 where
  arrives : Option P → Event P
  sends hands_over : ℕ → Event P
  takes : Event P
  processes : ℕ → Event P
  returns begins_reset : Event P
  resets : ℕ → Event P
  resetter_returns : Event P
  begins_round : Bool → ℕ → Event P
  writes : ℕ → ℕ → Event P
  snapshotter_returns : ℕ → Event P
  closes_channel closes_done ends : Event P

module _ {S P D : Type 0} (ops : TaskOps S P D) where
  unfoldable pub step : Manager S P D → Event P → Option (Manager S P D)
  unfolding arrive send hand_over take_packet process_next worker_return begin_reset reset_task
      resetter_return begin_round write_snapshot snapshotter_return close_channel close_done
      stop_end
  step m (arrives p) = some (arrive ops p m)
  step m (sends i) = send ops i m
  step m (hands_over i) = hand_over ops i m
  step m takes = take_packet ops m
  step m (processes i) = process_next ops i m
  step m returns = worker_return ops m
  step m begins_reset = begin_reset ops m
  step m (resets i) = reset_task ops i m
  step m resetter_returns = resetter_return ops m
  step m (begins_round last j) = begin_round ops last j m
  step m (writes j i) = write_snapshot ops j i m
  step m (snapshotter_returns j) = snapshotter_return ops j m
  step m closes_channel = close_channel ops m
  step m closes_done = close_done ops m
  step m ends = stop_end ops m

  -- What the goroutines can reach in any order, as long as none has panicked.
  pub data Reach (m : Manager S P D) : Manager S P D → Type 0 where
    here : Reach m m
    next :
        {u v : Manager S P D}
        → Reach m u
        → u.panicked ≡ false
        → (e : Event P) → step u e ≡ some v
        → Reach m v
