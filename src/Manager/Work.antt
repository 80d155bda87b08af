-- ===== src/Manager/Work.antt =====
-- Every packet that the manager accepts reaches every task, whatever the order of the steps.
use go2net_spectra.Base.{
  ℕ, zero, suc, ◌+◌, ◌≡◌, ◌==◌, ◌&&◌, refl, ap, arith, List, [], ◌∷◌, ◌++◌, Option, none, some,
  Bool, get_elem?, set, if◌then◌else◌, inl, inr, Option-cases,
}
use go2net_spectra.Factory.{TaskGroup}
use go2net_spectra.Persistent.{remove_at}
use go2net_spectra.Manager.{
  TaskOps, Op, processed, was_reset, Manager, Event, all_tasks, arrives, sends, hands_over, takes,
  processes, returns, begins_reset, resets, resetter_returns, begins_round, writes,
  snapshotter_returns, closes_channel, closes_done, ends, step,
}

-- How often a task stands in a list.
abbrev pub occurs : ℕ → List ℕ → ℕ
occurs t [] = 0
occurs t (x ∷ xs) = let rest = occurs t xs in if x == t then suc rest else rest

module _ {P : Type 0} (t : ℕ) (test : P → Bool) where
  -- How often the task has seen a packet that passes the test, ...
  abbrev pub seen : List (Op P) → ℕ
  seen [] = 0
  seen (processed u p ∷ log) = let rest = seen log in if (u == t) && test p then suc rest else rest
  seen (was_reset u ∷ log) = seen log

  -- ... how often the workers have still to show it one, ...
  abbrev pub owed : List (P × List ℕ) → ℕ
  owed [] = 0
  owed ((p, ts) ∷ busy) = let rest = owed busy in if test p then occurs t ts + rest else rest

  -- ... and k for each packet in a list that passes the test.
  abbrev pub weight : ℕ → List (Option P) → ℕ
  weight k [] = 0
  weight k (none ∷ ps) = weight k ps
  weight k (some p ∷ ps) = let rest = weight k ps in if test p then k + rest else rest

  weight-snoc :
      (k : ℕ) (ps : List (Option P)) (p : Option P) → weight k (ps ++ p ∷ []) ≡ weight k (p ∷ ps)
  weight-snoc k [] p = refl
  weight-snoc k (none ∷ ps) none = weight-snoc k ps none
  weight-snoc k (none ∷ ps) (some p) = weight-snoc k ps (some p)
  weight-snoc k (some q ∷ ps) none = ground (arith, weight-snoc k ps none)
  weight-snoc k (some q ∷ ps) (some p) = ground (arith, weight-snoc k ps (some p))

  owed-set :
      (busy : List (P × List ℕ)) (i : ℕ) (p : P) (u : ℕ) (ts : List ℕ)
      → get_elem? busy i ≡ some (p, u ∷ ts)
      → owed busy ≡ (
          if (u == t) && test p then suc (owed (set busy i (p, ts))) else owed (set busy i (p, ts)))
  owed-set [] i p u ts e = cc e
  owed-set ((q, us) ∷ busy) zero p u ts e = ground (arith, e)
  owed-set ((q, us) ∷ busy) (suc i) p u ts e = ground (arith, owed-set busy i p u ts e)

  owed-remove_at :
      (busy : List (P × List ℕ)) (i : ℕ) (p : P)
      → get_elem? busy i ≡ some (p, [])
      → owed busy ≡ owed (remove_at busy i)
  owed-remove_at [] i p e = cc e
  owed-remove_at ((q, us) ∷ busy) zero p e = ground (arith, e)
  owed-remove_at ((q, us) ∷ busy) (suc i) p e = ground (arith, owed-remove_at busy i p e)

module _ {S P D : Type 0} (ops : TaskOps S P D) (gs : List TaskGroup) (t : ℕ)
    (test : P → Bool) where
  -- What was accepted was seen, is on its way in a worker, or waits in the channel.
  pub record Conserved (m : Manager S P D) : Type 0 where
    pub groups : m.task_groups ≡ gs
    pub kept :
        seen t test m.log
          + owed t test m.busy
          + weight t test (occurs t (all_tasks gs)) m.packet_channel
        ≡ weight t test (occurs t (all_tasks gs)) m.accepted

  pub step-Conserved :
      (m v : Manager S P D) (e : Event P) → step ops m e ≡ some v → Conserved m → Conserved v
  unfolding step
  step-Conserved m v (arrives p) e k = ground (arith, e)
  step-Conserved m v (sends i) e k = elim (Option-cases (get_elem? m.sending i)) [
    | inl none' ↦ absurd (ground (arith, e, none'))
    | inr (none, here') ↦
        ground (arith, e, here', weight-snoc t test (occurs t (all_tasks gs)) m.packet_channel none)
    | inr (some p, here') ↦
        ground
          (arith, e, here', weight-snoc t test (occurs t (all_tasks gs)) m.packet_channel (some p))
  ]
  step-Conserved m v (hands_over i) e k = elim (Option-cases (get_elem? m.sending i)) [
    | inl none' ↦ absurd (ground (arith, e, none'))
    | inr (none, here') ↦ ground (arith, e, here')
    | inr (some p, here') ↦ ground (arith, e, here', k.groups, k.kept, ap all_tasks k.groups)
  ]
  step-Conserved m v takes e k = take_lem m.packet_channel refl
    where
      take_lem : (q : List (Option P)) → m.packet_channel ≡ q → Conserved v
      take_lem [] same = absurd (ground (arith, e, same))
      take_lem (none ∷ q) same = ground (arith, e, same)
      take_lem (some p ∷ q) same = ground (arith, e, same, k.groups, k.kept, ap all_tasks k.groups)
  step-Conserved m v (processes i) e k = elim (Option-cases (get_elem? m.busy i)) [
    | inl none' ↦ absurd (ground (arith, e, none'))
    | inr ((p, []), here') ↦ ground (arith, e, here', owed-remove_at t test m.busy i p here')
    | inr ((p, u ∷ ts), here') ↦ ground (arith, e, here', owed-set t test m.busy i p u ts here')
  ]
  step-Conserved m v returns e k = ground (arith, e)
  step-Conserved m v begins_reset e k = ground (arith, e)
  step-Conserved m v (resets i) e k = ground (arith, e)
  step-Conserved m v resetter_returns e k = ground (arith, e)
  step-Conserved m v (begins_round last j) e k = ground (arith, e)
  step-Conserved m v (writes j i) e k = ground (arith, e)
  step-Conserved m v (snapshotter_returns j) e k = ground (arith, e)
  step-Conserved m v closes_channel e k = ground (arith, e)
  step-Conserved m v closes_done e k = ground (arith, e)
  step-Conserved m v ends e k = ground (arith, e)
