-- ===== src/Persistent/Capacity.antt =====
-- The capacity of the worker's channel is fixed when it is made.
use go2net_spectra.Base.{
  ◌≡◌, refl, ◌∙◌, arith, List, [], ◌∷◌, some, get_elem?, Option-cases, inl, inr,
}
use go2net_spectra.Persistent.{
  Worker, Event, checks, sends, marks, signals, closes, finishes, takes, writes, returns, step,
  Reach, here, next,
}

-- No step changes the channel's capacity.
step-capacity :
    {A : Type 0} (w v : Worker A) (e : Event A) → step w e ≡ some v → v.capacity ≡ w.capacity
unfolding step
step-capacity w v (checks c) e = ground (arith, e)
step-capacity w v (sends i) e = elim (Option-cases (get_elem? w.checking i)) [
  | inl none' ↦ absurd (ground (arith, e, none'))
  | inr (c, here') ↦ ground (arith, e, here')
]
step-capacity w v marks e = ground (arith, e)
step-capacity w v signals e = ground (arith, e)
step-capacity w v closes e = ground (arith, e)
step-capacity w v finishes e = done_lem w.taken refl
  where
    done_lem : (t : List _) → w.taken ≡ t → v.capacity ≡ w.capacity
    done_lem (c ∷ t) same = absurd (ground (arith, e, same))
    done_lem [] same = ground (arith, e, same)
step-capacity w v takes e = take_lem w.packet_chan refl
  where
    take_lem : (q : List _) → w.packet_chan ≡ q → v.capacity ≡ w.capacity
    take_lem [] same = absurd (ground (arith, e, same))
    take_lem (c ∷ q) same = ground (arith, e, same)
step-capacity w v (writes ok i) e = elim (Option-cases (get_elem? w.taken i)) [
  | inl none' ↦ absurd (ground (arith, e, none'))
  | inr (c, here') ↦ ground (arith, e, here')
]
step-capacity w v returns e = return_lem w.packet_chan refl
  where
    return_lem : (q : List _) → w.packet_chan ≡ q → v.capacity ≡ w.capacity
    return_lem (c ∷ q) same = absurd (ground (arith, e, same))
    return_lem [] same = ground (arith, e, same)

pub Reach-capacity : {A : Type 0} {w v : Worker A} → Reach w v → v.capacity ≡ w.capacity
Reach-capacity here = refl
Reach-capacity (next {u} {v} r alive e at) = step-capacity u v e at ∙ Reach-capacity r
