-- ===== src/Manager/Final.antt =====
-- The last round of every snapshotter comes after the workers' work.
use go2net_spectra.Base.{
  ℕ, zero, suc, ◌<◌, ◌≡◌, refl, sym, ◌∙◌, subst, arith, List, [], ◌∷◌, ◌++◌, Option, none, some,
  Bool, true, false, get_elem?, set, All, All-set, All-map, inl, inr, Bool-cases, Option-cases,
}
use go2net_spectra.Factory.{TaskGroup}
use go2net_spectra.Persistent.{remove_at, not_positive}
use go2net_spectra.Manager.{
  TaskOps, Snapshotter, Manager, Event, all_tasks, arrives, sends, hands_over, takes, processes,
  returns, begins_reset, resets, resetter_returns, begins_round, writes, snapshotter_returns,
  closes_channel, closes_done, ends, step, Reach, here, next, start_manager, start_snapshotters,
  group_snapshotters,
}
use go2net_spectra.Manager.Work.{occurs, seen, weight}
use go2net_spectra.Manager.Counts.{done_sees_all}

-- A snapshotter in its last round has seen `done` closed.
abbrev After : Bool → Snapshotter → Type 0
After done s = s.last ≡ true → done ≡ true

All-append : {A : Type 0} (Q : A → Type 0) (xs ys : List A) → All Q xs → All Q ys → All Q (xs ++ ys)
All-append Q [] ys a b = b
All-append Q (x ∷ xs) ys a b = (a.0, All-append Q xs ys a.1 b)

All-get_elem? :
    {A : Type 0} (Q : A → Type 0) (xs : List A) (i : ℕ) (x : A)
    → All Q xs
    → get_elem? xs i ≡ some x
    → Q x
All-get_elem? Q [] i x a e = cc e
All-get_elem? Q (y ∷ xs) zero x a e = subst Q (ground (arith, e)) a.0
All-get_elem? Q (y ∷ xs) (suc i) x a e = All-get_elem? Q xs i x a.1 e

group_snapshotters-After : (ts ws : List ℕ) → All (After false) (group_snapshotters ts ws)
group_snapshotters-After ts [] = tt
group_snapshotters-After ts (w ∷ ws) = elim (Bool-cases (not_positive w)) [
  | inl skipped ↦ rw skipped (group_snapshotters-After ts ws)
  | inr runs ↦ rw runs (λ e. cc e, group_snapshotters-After ts ws)
]

start_snapshotters-After : (gs : List TaskGroup) → All (After false) (start_snapshotters gs)
unfolding start_snapshotters
start_snapshotters-After [] = tt
start_snapshotters-After (g ∷ gs) =
    All-append (After false) (group_snapshotters g.tasks g.writers) (start_snapshotters gs)
      (group_snapshotters-After g.tasks g.writers) (start_snapshotters-After gs)

module _ {S P D : Type 0} (ops : TaskOps S P D) where
  abbrev Rounds : Manager S P D → Type 0
  Rounds m = All (After m.done) m.snapshotters

  kept_lem :
      (m v : Manager S P D)
      → v.snapshotters ≡ m.snapshotters
      → (m.done ≡ true → v.done ≡ true)
      → Rounds m
      → Rounds v
  kept_lem m v same later k =
      subst (All (After v.done)) (sym same)
        (All-map (After m.done) m.snapshotters (λ s a l. later (a l)) k)

  set_lem :
      (m v : Manager S P D) (j : ℕ) (s : Snapshotter)
      → v.snapshotters ≡ set m.snapshotters j s
      → v.done ≡ m.done
      → After v.done s
      → Rounds m
      → Rounds v
  set_lem m v j s same done' a k = subst (All (After v.done)) (sym same) (
      All-set (After v.done) m.snapshotters j s
        (All-map (After m.done) m.snapshotters (λ x b l. done' ∙ b l) k) a)

  step-Rounds : (m v : Manager S P D) (e : Event P) → step ops m e ≡ some v → Rounds m → Rounds v
  unfolding step
  step-Rounds m v (arrives p) e k = kept_lem m v (ground (arith, e)) (ground (arith, e)) k
  step-Rounds m v (sends i) e k = kept_lem m v (ground (arith, e)) (ground (arith, e)) k
  step-Rounds m v (hands_over i) e k = elim (Option-cases (get_elem? m.sending i)) [
    | inl none' ↦ absurd (ground (arith, e, none'))
    | inr (none, at) ↦ kept_lem m v (ground (arith, e, at)) (ground (arith, e, at)) k
    | inr (some p, at) ↦ kept_lem m v (ground (arith, e, at)) (ground (arith, e, at)) k
  ]
  step-Rounds m v takes e k = take_lem m.packet_channel refl
    where
      take_lem : (q : List (Option P)) → m.packet_channel ≡ q → Rounds v
      take_lem [] at = absurd (ground (arith, e, at))
      take_lem (none ∷ q) at = kept_lem m v (ground (arith, e, at)) (ground (arith, e, at)) k
      take_lem (some p ∷ q) at = kept_lem m v (ground (arith, e, at)) (ground (arith, e, at)) k
  step-Rounds m v (processes i) e k = elim (Option-cases (get_elem? m.busy i)) [
    | inl none' ↦ absurd (ground (arith, e, none'))
    | inr ((p, []), at) ↦ kept_lem m v (ground (arith, e, at)) (ground (arith, e, at)) k
    | inr ((p, u ∷ ts), at) ↦ kept_lem m v (ground (arith, e, at)) (ground (arith, e, at)) k
  ]
  step-Rounds m v returns e k = kept_lem m v (ground (arith, e)) (ground (arith, e)) k
  step-Rounds m v begins_reset e k = kept_lem m v (ground (arith, e)) (ground (arith, e)) k
  step-Rounds m v (resets i) e k = kept_lem m v (ground (arith, e)) (ground (arith, e)) k
  step-Rounds m v resetter_returns e k = kept_lem m v (ground (arith, e)) (ground (arith, e)) k
  step-Rounds m v (begins_round last j) e k = elim (Option-cases (get_elem? m.snapshotters j)) [
    | inl none' ↦ absurd (ground (arith, e, none'))
    | inr (s, at) ↦
        set_lem m v j (record s { pending = s.tasks; last = last }) (ground (arith, e, at))
          (ground (arith, e, at)) (ground (arith, e, at)) k
  ]
  step-Rounds m v (writes j i) e k = elim (Option-cases (get_elem? m.snapshotters j)) [
    | inl none' ↦ absurd (ground (arith, e, none'))
    | inr (s, at) ↦
        let a = All-get_elem? (After m.done) m.snapshotters j s k at in
        set_lem m v j (record s { pending = remove_at s.pending i }) (ground (arith, e, at))
          (ground (arith, e, at)) (ground (arith, e, at, a)) k
  ]
  step-Rounds m v (snapshotter_returns j) e k = elim (Option-cases (get_elem? m.snapshotters j)) [
    | inl none' ↦ absurd (ground (arith, e, none'))
    | inr (s, at) ↦
        let a = All-get_elem? (After m.done) m.snapshotters j s k at in
        set_lem m v j (record s { returned = true }) (ground (arith, e, at)) (ground (arith, e, at))
          (ground (arith, e, at, a)) k
  ]
  step-Rounds m v closes_channel e k = kept_lem m v (ground (arith, e)) (ground (arith, e)) k
  step-Rounds m v closes_done e k = kept_lem m v (ground (arith, e)) (ground (arith, e)) k
  step-Rounds m v ends e k = kept_lem m v (ground (arith, e)) (ground (arith, e)) k

  Reach-Rounds : {m v : Manager S P D} → Reach ops m v → Rounds m → Rounds v
  Reach-Rounds here k = k
  Reach-Rounds (next {u} {v} r alive e at) k = step-Rounds u v e at (Reach-Rounds r k)

  start_manager-Rounds :
      (store : List S) (gs : List TaskGroup) (capacity workers : ℕ)
      → Rounds (start_manager store gs capacity workers)
  unfolding start_manager
  start_manager-Rounds store gs capacity workers = start_snapshotters-After gs

  write_snapshot_lem :
      (u v : Manager S P D) (j i : ℕ)
      → step ops u (writes j i) ≡ some v
      → (t : ℕ) × ((task : S) × (get_elem? u.store t ≡ some task)
          × (v.written ≡ (j, t, ops.snapshot task) ∷ u.written))
  unfolding step
  write_snapshot_lem u v j i e = elim (Option-cases (get_elem? u.snapshotters j)) [
    | inl none' ↦ absurd (ground (arith, e, none'))
    | inr (s, at) ↦ elim (Option-cases (get_elem? s.pending i)) [
      | inl none' ↦ absurd (ground (arith, e, at, none'))
      | inr (t, named) ↦ elim (Option-cases (get_elem? u.store t)) [
        | inl none' ↦ absurd (ground (arith, e, at, named, none'))
        | inr (task, there) ↦ (t, (task, there, ground (arith, e, at, named, there)))
      ]
    ]
  ]

  -- A manager that was started with a worker at least, under every order of its goroutines' steps:
  -- what a snapshotter writes in its last round is the snapshot of the state of a task that has seen
  -- each packet that the manager ever accepted, as often as the task stands in the groups, counted by
  -- any test.
  pub last_snapshot_sees_all :
      (store : List S) (gs : List TaskGroup) (capacity workers : ℕ) (test : P → Bool)
      (u v : Manager S P D) (j i : ℕ) (s : Snapshotter)
      → 0 < workers
      → Reach ops (start_manager store gs capacity workers) u
      → get_elem? u.snapshotters j ≡ some s
      → s.last ≡ true
      → step ops u (writes j i) ≡ some v
      → (t : ℕ) × ((task : S) × (get_elem? u.store t ≡ some task)
          × (v.written ≡ (j, t, ops.snapshot task) ∷ u.written)
          × (seen t test u.log ≡ weight t test (occurs t (all_tasks gs)) u.accepted))
  last_snapshot_sees_all store gs capacity workers test u v j i s some_worker r at l e =
      let rounds = Reach-Rounds r (start_manager-Rounds store gs capacity workers) in
      let d = All-get_elem? (After u.done) u.snapshotters j s rounds at l in
      let (t, (task, there, wrote)) = write_snapshot_lem u v j i e in
      let (all, same) = done_sees_all ops store gs capacity workers t test u some_worker r d in
      (t, (task, there, wrote, all))
