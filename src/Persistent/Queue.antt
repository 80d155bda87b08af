-- ===== src/Persistent/Queue.antt =====
-- The containers that the worker accepts: each waits in the channel or goes to one write.
use go2net_spectra.Base.{
  ℕ, zero, suc, ◌+◌, ◌≤◌, ◌<◌, ◌≡◌, refl, ap, subst, arith, List, [], ◌∷◌, ◌++◌, some, Bool, true,
  length, length-append, get_elem?, if◌then◌else◌, ◌⊎◌, inl, inr, Option-cases, Bool-cases, false,
}
use go2net_spectra.Persistent.Capacity.{Reach-capacity}
use go2net_spectra.Persistent.{
  Worker, PersistenceConfig, started, fresh_worker, new_worker, remove_at, Event, checks, sends,
  marks, signals, closes, finishes, takes, writes, returns, step, Reach, here, next, not_positive,
}

-- How many entries pass a test.
abbrev pub count : {A : Type 0} → (A → Bool) → List A → ℕ
count p [] = 0
count p (x ∷ xs) = let rest = count p xs in if p x then suc rest else rest

module _ {A : Type 0} (p : A → Bool) where
  count-le-length : (xs : List A) → count p xs ≤ length xs
  count-le-length [] = omega arith
  count-le-length (x ∷ xs) = ground (arith, count-le-length xs)

  count-snoc : (xs : List A) (x : A) → count p (xs ++ x ∷ []) ≡ count p (x ∷ xs)
  count-snoc [] x = refl
  count-snoc (y ∷ xs) x = ground (arith, count-snoc xs x)

  count-remove_at :
      (xs : List A) (i : ℕ) (x : A)
      → get_elem? xs i ≡ some x
      → count p xs ≡ count p (x ∷ remove_at xs i)
  count-remove_at [] i x e = cc e
  count-remove_at (y ∷ xs) zero x e = ground (arith, e)
  count-remove_at (y ∷ xs) (suc i) x e = ground (arith, count-remove_at xs i x e)

  -- What was accepted is written, was refused by the encoder, is being written, or waits.
  abbrev Conserved : Worker A → Type 0
  Conserved w =
      count p w.accepted
      ≡ count p w.written + count p w.failed + count p w.taken + count p w.packet_chan

  step-Conserved : (w v : Worker A) (e : Event A) → step w e ≡ some v → Conserved w → Conserved v
  unfolding step
  step-Conserved w v (checks c) e k = ground (arith, e)
  step-Conserved w v (sends i) e k = elim (Option-cases (get_elem? w.checking i)) [
    | inl none' ↦ absurd (ground (arith, e, none'))
    | inr (c, here') ↦ ground (arith, e, here', count-snoc w.accepted c, count-snoc w.packet_chan c)
  ]
  step-Conserved w v marks e k = ground (arith, e)
  step-Conserved w v signals e k = ground (arith, e)
  step-Conserved w v closes e k = ground (arith, e)
  step-Conserved w v finishes e k = ground (arith, e)
  step-Conserved w v takes e k = take_lem w.packet_chan refl
    where
      take_lem : (q : List A) → w.packet_chan ≡ q → Conserved v
      take_lem [] same = absurd (ground (arith, e, same))
      take_lem (c ∷ q) same = ground (arith, e, same, count-snoc w.taken c)
  step-Conserved w v (writes ok i) e k = elim (Option-cases (get_elem? w.taken i)) [
    | inl none' ↦ absurd (ground (arith, e, none'))
    | inr (c, here') ↦ ground (
      arith,
      e,
      here',
      count-snoc w.written c,
      count-snoc w.failed c,
      count-remove_at w.taken i c here',
    )
  ]
  step-Conserved w v returns e k = ground (arith, e)

pub length-remove_at :
    {A : Type 0} (xs : List A) (i : ℕ) (x : A)
    → get_elem? xs i ≡ some x
    → length xs ≡ suc (length (remove_at xs i))
length-remove_at [] i x e = cc e
length-remove_at (y ∷ xs) zero x e = refl
length-remove_at (y ∷ xs) (suc i) x e = ap suc (length-remove_at xs i x e)

-- The channel keeps its capacity, a worker returns only from a channel that is closed and empty, and
-- `done` is closed only when every worker has returned.
pub record Pool {A : Type 0} (n : ℕ) (w : Worker A) : Type 0 where
  pub room : length w.packet_chan ≤ w.capacity
  pub staff : (w.idle + length w.taken ≡ n) ⊎ ((w.chan_closed ≡ true) × (length w.packet_chan ≡ 0))
  pub ended : w.done ≡ true → (w.idle + length w.taken ≡ 0) × (w.chan_closed ≡ true)

step-Pool :
    {A : Type 0} (n : ℕ) (w v : Worker A) (e : Event A) → step w e ≡ some v → Pool n w → Pool n v
unfolding step
step-Pool n w v (checks c) e k = ground (arith, e)
step-Pool n w v (sends i) e k = elim (Option-cases (get_elem? w.checking i)) [
  | inl none' ↦ absurd (ground (arith, e, none'))
  | inr (c, here') ↦ ground (arith, e, here', length-append {0} w.packet_chan (c ∷ []))
]
step-Pool n w v marks e k = ground (arith, e)
step-Pool n w v signals e k = ground (arith, e)
step-Pool n w v closes e k = ground (arith, e)
step-Pool n w v finishes e k = done_lem w.taken refl
  where
    done_lem : (t : List _) → w.taken ≡ t → Pool n v
    done_lem (c ∷ t) same = absurd (ground (arith, e, same))
    done_lem [] same = ground (arith, e, same)
step-Pool n w v takes e k = take_lem w.packet_chan refl
  where
    take_lem : (q : List _) → w.packet_chan ≡ q → Pool n v
    take_lem [] same = absurd (ground (arith, e, same))
    take_lem (c ∷ q) same = ground (arith, e, same, length-append {0} w.taken (c ∷ []))
step-Pool n w v (writes ok i) e k = elim (Option-cases (get_elem? w.taken i)) [
  | inl none' ↦ absurd (ground (arith, e, none'))
  | inr (c, here') ↦ ground (arith, e, here', length-remove_at w.taken i c here')
]
step-Pool n w v returns e k = return_lem w.packet_chan refl
  where
    return_lem : (q : List _) → w.packet_chan ≡ q → Pool n v
    return_lem (c ∷ q) same = absurd (ground (arith, e, same))
    return_lem [] same = ground (arith, e, same)

pub fresh_worker-Pool : {A : Type 0} (size n : ℕ) → Pool n (fresh_worker {A = A} size n)
unfolding fresh_worker
fresh_worker-Pool size n = ground arith

fresh_worker-Conserved :
    {A : Type 0} (p : A → Bool) (size n : ℕ) → Conserved p (fresh_worker size n)
unfolding fresh_worker
fresh_worker-Conserved p size n = refl

Reach-Conserved :
    {A : Type 0} (p : A → Bool) {w v : Worker A} → Reach w v → Conserved p w → Conserved p v
Reach-Conserved p here k = k
Reach-Conserved p (next {u} {v} r alive e at) k = step-Conserved p u v e at (Reach-Conserved p r k)

pub Reach-Pool : {A : Type 0} (n : ℕ) {w v : Worker A} → Reach w v → Pool n w → Pool n v
Reach-Pool n here k = k
Reach-Pool n (next {u} {v} r alive e at) k = step-Pool n u v e at (Reach-Pool n r k)

-- What `NewWorker` starts: an empty channel, and at least one worker.
pub new_worker-started :
    {A : Type 0} (directory file header : Bool) (cfg : PersistenceConfig) (w : Worker A)
    → new_worker directory file header cfg ≡ started w
    → (size : ℕ) × (n : ℕ) × (0 < size) × (0 < n) × (fresh_worker size n ≡ w)
unfolding new_worker
new_worker-started directory file header cfg w e = (
  if not_positive cfg.channel_buffer_size then 10000 else cfg.channel_buffer_size,
  if not_positive cfg.num_workers then 1 else cfg.num_workers,
  ground arith,
  ground arith,
  ground (arith, e),
)

-- Once `done` is closed nothing is being written, and nothing waits.
all_handled :
    {A : Type 0} (p : A → Bool) (n : ℕ) (v : Worker A)
    → Pool n v
    → 0 < n
    → Conserved p v
    → v.done ≡ true
    → count p v.accepted ≡ count p v.written + count p v.failed
all_handled p n v pool pos kept d = ground (
  arith,
  pool.staff,
  (pool.ended d).0,
  pos,
  kept,
  count-le-length p v.taken,
  count-le-length p v.packet_chan,
)

-- A worker that `NewWorker` started, in every state that its goroutines reach in any order: the
-- channel never holds more than the capacity it was made with. Whatever test the containers are sorted
-- by, as many of those that were accepted pass it as of those whose write returned no error, whose
-- write returned an error, that are being written, and that wait in the channel. And once `done` is
-- closed, so that `Stop` can return, the write of each of them that passes has returned.
pub stopped_handles_all :
    {A : Type 0} (directory file header : Bool) (cfg : PersistenceConfig) (w v : Worker A)
    (p : A → Bool)
    → new_worker directory file header cfg ≡ started w
    → Reach w v
    → (length v.packet_chan ≤ w.capacity)
      × (count p v.accepted
          ≡ count p v.written + count p v.failed + count p v.taken + count p v.packet_chan)
      × ((v.done ≡ false) ⊎ (count p v.accepted ≡ count p v.written + count p v.failed))
stopped_handles_all directory file header cfg w v p made r =
    let (size, n, roomy, pos, fresh) = new_worker-started directory file header cfg w made in
    let pool = Reach-Pool n r (subst (Pool n) fresh (fresh_worker-Pool size n)) in
    let kept = Reach-Conserved p r (subst (Conserved p) fresh (fresh_worker-Conserved p size n)) in
    (
      omega (arith, pool.room, Reach-capacity r),
      kept,
      elim (Bool-cases v.done) [
        | inr off ↦ inl off
        | inl on ↦ inr (all_handled p n v pool pos kept on)
      ],
    )
