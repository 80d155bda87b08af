-- ===== src/Persistent/Drain.antt =====
-- `Stop` can always come to its end: what is left to write is finite.
use go2net_spectra.Base.{
  ℕ, zero, suc, ◌+◌, ◌-◌, ◌<◌, ◌≡◌, refl, ap, ◌∙◌, arith, List, [], ◌∷◌, ◌++◌, Bool, true, false,
  length, length-append, subst, ◌⊎◌, inl, inr, Bool-cases,
}
use go2net_spectra.Persistent.Queue.{Pool, new_worker-started, fresh_worker-Pool, Reach-Pool}
use go2net_spectra.Persistent.{
  PersistenceConfig, started, new_worker, Worker, closes, finishes, takes, writes, returns, step,
  Reach, here, next,
}

nil_lem : {A : Type 0} (xs : List A) → length xs ≡ 0 → xs ≡ []
nil_lem [] e = refl
nil_lem (x ∷ xs) e = absurd (omega arith)

module _ {A : Type 0} where
  Reach-trans : {u v w : Worker A} → Reach u v → Reach v w → Reach u w
  Reach-trans r here = r
  Reach-trans r (next s alive e at) = next (Reach-trans r s) alive e at

  -- Later states that differ only in who writes what.
  record Later (w v : Worker A) : Type 0 where
    way : Reach w v
    closed : v.chan_closed ≡ w.chan_closed
    ended : v.done ≡ w.done
    alive : v.panicked ≡ w.panicked
    staff : v.idle + length v.taken ≡ w.idle + length w.taken

  Later-trans : {u v w : Worker A} → Later u v → Later v w → Later u w
  Later-trans a b = record {
    way = Reach-trans a.way b.way;
    closed = b.closed ∙ a.closed;
    ended = b.ended ∙ a.ended;
    alive = b.alive ∙ a.alive;
    staff = b.staff ∙ a.staff;
  }

  write_one :
      (w : Worker A) (c : A) (t : List A)
      → w.taken ≡ c ∷ t
      → w.panicked ≡ false
      → Later w (record w { taken = t; idle = w.idle + 1; written = w.written ++ c ∷ [] })
  unfolding step
  write_one w c t e alive = record {
    way = next here alive (writes true 0) (ground (arith, e));
    closed = refl;
    ended = refl;
    alive = refl;
    staff = ground (arith, e);
  }

  write_all :
      (t : List A) (w : Worker A)
      → w.taken ≡ t
      → w.panicked ≡ false
      → (v : Worker A) × Later w v × (v.taken ≡ []) × (v.packet_chan ≡ w.packet_chan)
  write_all [] w e alive =
      (w, record { way = here; closed = refl; ended = refl; alive = refl; staff = refl }, e, refl)
  write_all (c ∷ t) w e alive =
      let u = record w { taken = t; idle = w.idle + 1; written = w.written ++ c ∷ [] } in
      let (v, later, empty, same) = write_all t u refl alive in
      (v, Later-trans (write_one w c t e alive) later, empty, same)

  take_one :
      (w : Worker A) (c : A) (q : List A)
      → w.packet_chan ≡ c ∷ q
      → 0 < w.idle
      → w.panicked ≡ false
      → Later w (record w { packet_chan = q; idle = w.idle - 1; taken = w.taken ++ c ∷ [] })
  unfolding step
  take_one w c q e free alive = record {
    way = next here alive takes (ground (arith, e, free));
    closed = refl;
    ended = refl;
    alive = refl;
    staff = omega (arith, free, length-append {0} w.taken (c ∷ []));
  }

  -- An idle worker empties the channel.
  drain :
      (q : List A) (w : Worker A)
      → w.packet_chan ≡ q
      → w.taken ≡ []
      → 0 < w.idle
      → w.panicked ≡ false
      → (v : Worker A) × Later w v × (v.taken ≡ []) × (v.packet_chan ≡ [])
  drain [] w e none_taken free alive = (
    w,
    record { way = here; closed = refl; ended = refl; alive = refl; staff = refl },
    none_taken,
    e,
  )
  drain (c ∷ q) w e none_taken free alive =
      let u = record w { packet_chan = q; idle = w.idle - 1; taken = w.taken ++ c ∷ [] } in
      let held : u.taken ≡ c ∷ [] = ap (λ (t : List A). t ++ c ∷ []) none_taken in
      let x = record u { taken = []; idle = u.idle + 1; written = u.written ++ c ∷ [] } in
      let (v, later, a, b) = drain q x refl refl (omega arith) alive in
      (
        v,
        Later-trans (take_one w c q e free alive) (Later-trans (write_one u c [] held alive) later),
        a,
        b,
      )

  -- Then the workers return, and the file is closed.
  finish :
      (m : ℕ) (w : Worker A)
      → w.idle ≡ m
      → w.packet_chan ≡ []
      → w.taken ≡ []
      → w.chan_closed ≡ true
      → w.panicked ≡ false
      → (v : Worker A) × Reach w v × (v.done ≡ true) × (v.panicked ≡ false)
  unfolding step
  finish zero w e empty none_taken closed alive = elim (Bool-cases w.done) [
    | inl over ↦ (w, here, over, alive)
    | inr open' ↦ (
      record w { done = true },
      next here alive finishes (ground (arith, e, none_taken, closed, open')),
      refl,
      alive,
    )
  ]
  finish (suc m) w e empty none_taken closed alive =
      let u = record w { idle = w.idle - 1 } in
      let first : Reach w u = next here alive returns (ground (arith, e, empty, closed)) in
      let (v, r, over, safe) = finish m u (omega arith) empty none_taken closed alive in
      (v, Reach-trans first r, over, safe)

  -- Somebody is there to write what is left.
  Manned : Worker A → Type 0
  Manned w = (0 < w.idle + length w.taken) ⊎ (length w.packet_chan ≡ 0)

  complete :
      (w : Worker A)
      → w.chan_closed ≡ true
      → w.panicked ≡ false
      → Manned w
      → (v : Worker A) × Reach w v × (v.done ≡ true) × (v.panicked ≡ false)
  unfolding Manned
  complete w closed alive manned =
      let (u, later, none_taken, same) = write_all w.taken w refl alive in
      let safe = later.alive ∙ alive in
      let shut = later.closed ∙ closed in
      elim manned [
        | inl free ↦
            let (x, more, a, b) =
              drain u.packet_chan u refl none_taken
                (omega (arith, later.staff, ap length none_taken, free)) safe in
            let (v, r, over, ok) =
              finish x.idle x refl b a (more.closed ∙ shut) (more.alive ∙ safe) in
            (v, Reach-trans later.way (Reach-trans more.way r), over, ok)
        | inr empty ↦
            let (v, r, over, ok) =
              finish u.idle u refl (same ∙ nil_lem w.packet_chan empty) none_taken shut safe in
            (v, Reach-trans later.way r, over, ok)
      ]

-- A worker that `NewWorker` started: from every state that it reaches without a panic after `Stop` was
-- called, its goroutines can go on to the point where `Stop` returns.
pub stop_completes :
    {A : Type 0} (directory file header : Bool) (cfg : PersistenceConfig) (w u : Worker A)
    → new_worker directory file header cfg ≡ started w
    → Reach w u
    → u.panicked ≡ false
    → u.stop_chan_closed ≡ true
    → (v : Worker A) × Reach u v × (v.done ≡ true) × (v.panicked ≡ false)
unfolding step Manned
stop_completes directory file header cfg w u made r alive asked =
    let (size, n, roomy, pos, fresh) = new_worker-started directory file header cfg w made in
    let pool = Reach-Pool n r (subst (Pool n) fresh (fresh_worker-Pool size n)) in
    let manned : Manned u = ground (arith, pool.staff, pos) in
    elim (Bool-cases u.chan_closed) [
      | inl closed ↦ complete u closed alive manned
      | inr open' ↦
          let x = record u { stopping = true; chan_closed = true } in
          let first : Reach u x = next here alive closes (ground (arith, asked, open')) in
          let (v, rest, over, ok) = complete x refl alive manned in
          (v, Reach-trans first rest, over, ok)
    ]
