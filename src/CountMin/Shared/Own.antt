-- ===== src/CountMin/Shared/Own.antt =====
-- Goroutines that all insert the flow of the cell lose no update, and one alone does what the code of
-- one goroutine does.
use go2net_spectra.Base.{
  ℕ, zero, suc, ◌+◌, ◌-◌, ◌<◌, ◌^◌, ◌≡◌, ◌==◌, refl, sym, ◌∙◌, subst, arith, Bytes, bytes_eq,
  eq→bytes_eq, copy, List, [], ◌∷◌, some, true, false, get_elem?, set, replicate, All, All-set,
  Bool-cases, Option-cases, inl, inr,
}
use go2net_spectra.Murmur.{u32}
use go2net_spectra.CountMin.{Cell, update_count}
use go2net_spectra.CountMin.Shared.{
  Point, at_load, at_compare, at_swap, at_copy, finished, Shared, advance, step, Reach, here, next,
}

-- Whether a goroutine has yet to change the counter.
abbrev pub waits : Point → ℕ
waits at_load = 1
waits (at_compare v) = 1
waits (at_swap v new copies) = 1
waits at_copy = 0
waits finished = 0

abbrev pub waiting : List (Bytes × Point) → ℕ
waiting [] = 0
waiting ((f, p) ∷ ts) = waits p + waiting ts

abbrev OfFlow : Bytes → Bytes × Point → Type 0
OfFlow flow (f, at_load) = f ≡ flow
OfFlow flow (f, at_compare v) = (f ≡ flow) × (0 < v)
OfFlow flow (f, at_swap v n c) = (f ≡ flow) × (0 < v) × (n ≡ u32 (v + 1)) × (c ≡ false)
OfFlow flow (f, at_copy) = ⊥
OfFlow flow (f, finished) = f ≡ flow

record OwnFlow (flow : Bytes) (total : ℕ) (s : Shared) : Type 0 where
  mine : s.cell.fp ≡ flow
  some_there : 0 < s.cell.value
  sum : s.cell.value + waiting s.threads ≡ total
  threads : All (OfFlow flow) s.threads

waiting-set :
    (ts : List (Bytes × Point)) (i : ℕ) (f : Bytes) (a b : Point)
    → get_elem? ts i ≡ some (f, a)
    → waiting (set ts i (f, b)) + waits a ≡ waiting ts + waits b
waiting-set [] i f a b e = cc e
waiting-set ((g, p) ∷ ts) zero f a b e = ground (arith, e)
waiting-set ((g, p) ∷ ts) (suc i) f a b e = ground (arith, waiting-set ts i f a b e)

All-at :
    {A : Type 0} (Q : A → Type 0) (xs : List A) (i : ℕ) (x : A)
    → All Q xs
    → get_elem? xs i ≡ some x
    → Q x
All-at Q [] i x a e = cc e
All-at Q (y ∷ xs) zero x a e = subst Q (ground (arith, e)) a.0
All-at Q (y ∷ xs) (suc i) x a e = All-at Q xs i x a.1 e

-- The state after a step of goroutine i.
moved : Shared → ℕ → Bytes → Cell → Point → Shared
moved s i f c p = record { cell = c; threads = set s.threads i (f, p) }

moved-OwnFlow :
    (flow : Bytes) (total : ℕ) (s : Shared) (i : ℕ) (f : Bytes) (a b : Point) (c : Cell)
    → OwnFlow flow total s
    → get_elem? s.threads i ≡ some (f, a)
    → c.fp ≡ flow
    → 0 < c.value
    → c.value + waits b ≡ s.cell.value + waits a
    → OfFlow flow (f, b)
    → OwnFlow flow total (moved s i f c b)
unfolding moved
moved-OwnFlow flow total s i f a b c k at mine some_there sum ok = record {
  mine = mine;
  some_there = some_there;
  sum = omega (arith, k.sum, sum, waiting-set s.threads i f a b at);
  threads = All-set (OfFlow flow) s.threads i (f, b) k.threads ok;
}

-- One step, by the point of the goroutine.
advance-OwnFlow :
    (flow : Bytes) (total : ℕ) (s : Shared) (i : ℕ) (f : Bytes) (a : Point)
    → total < 2 ^ 32
    → OwnFlow flow total s
    → get_elem? s.threads i ≡ some (f, a)
    → OfFlow flow (f, a)
    → let r = advance f a s.cell in OwnFlow flow total (moved s i f r.0 r.1)
unfolding advance
advance-OwnFlow flow total s i f at_load small k at mine =
    let some_value : (s.cell.value == 0) ≡ false = ground (arith, k.some_there) in
    rw some_value (
      moved-OwnFlow flow total s i f at_load (at_compare s.cell.value) s.cell k at k.mine
        k.some_there refl (mine, k.some_there))
advance-OwnFlow flow total s i f (at_compare v) small k at (mine, pos) =
    let same : bytes_eq s.cell.fp f ≡ true = eq→bytes_eq s.cell.fp f (k.mine ∙ sym mine) in
    rw same (
      moved-OwnFlow flow total s i f (at_compare v) (at_swap v (u32 (v + 1)) false) s.cell k at
        k.mine k.some_there refl (mine, pos, refl, refl))
advance-OwnFlow flow total s i f (at_swap v new copies) small k at (mine, pos, e, plain) =
    elim (Bool-cases (s.cell.value == v)) [
      | inr moved_on ↦ rw moved_on (
          moved-OwnFlow flow total s i f (at_swap v new copies) at_load s.cell k at k.mine
            k.some_there refl mine)
      | inl still ↦
          let left = waiting-set s.threads i f (at_swap v new copies) finished at in
          let fits : new ≡ s.cell.value + 1 = ground (arith, left, k.sum, small, e, still) in
          rw (still, plain)
            (moved-OwnFlow flow total s i f (at_swap v new copies) finished
              (record { fp = s.cell.fp; value = new }) k at k.mine (omega arith)
              (omega (arith, fits)) mine)
    ]
advance-OwnFlow flow total s i f at_copy small k at bad = absurd bad
advance-OwnFlow flow total s i f finished small k at mine =
    moved-OwnFlow flow total s i f finished finished s.cell k at k.mine k.some_there refl mine

step-OwnFlow :
    (flow : Bytes) (total : ℕ) (u v : Shared) (i : ℕ)
    → total < 2 ^ 32
    → step u i ≡ some v
    → OwnFlow flow total u
    → OwnFlow flow total v
unfolding step moved
step-OwnFlow flow total u v i small e k = elim (Option-cases (get_elem? u.threads i)) [
  | inl none' ↦ absurd (ground (arith, e, none'))
  | inr ((f, a), at) ↦
      let r = advance f a u.cell in
      let same : moved u i f r.0 r.1 ≡ v = ground (arith, e, at) in
      subst (OwnFlow flow total) same (
        advance-OwnFlow flow total u i f a small k at
          (All-at (OfFlow flow) u.threads i (f, a) k.threads at))
]

Reach-OwnFlow :
    (flow : Bytes) (total : ℕ) {u v : Shared}
    → total < 2 ^ 32
    → Reach u v
    → OwnFlow flow total u
    → OwnFlow flow total v
Reach-OwnFlow flow total small here k = k
Reach-OwnFlow flow total small (next {u} {v} r i e) k =
    step-OwnFlow flow total u v i small e (Reach-OwnFlow flow total small r k)

fresh_threads : (flow : Bytes) (n : ℕ) → All (OfFlow flow) (replicate n (flow, at_load))
fresh_threads flow zero = tt
fresh_threads flow (suc n) = (refl, fresh_threads flow n)

waiting-replicate : (flow : Bytes) (n : ℕ) → waiting (replicate n (flow, at_load)) ≡ n
waiting-replicate flow zero = refl
waiting-replicate flow (suc n) = omega (arith, waiting-replicate flow n)

-- Goroutines that all insert the flow that a cell holds, as long as the counter cannot pass 2 ^ 32: in
-- every order of their steps the cell keeps the flow, and its counter has grown by exactly the number
-- of goroutines that are no longer waiting to change it.
pub own_flow_exact :
    (c : Cell) (n : ℕ) (v : Shared)
    → 0 < c.value
    → c.value + n < 2 ^ 32
    → Reach (record { cell = c; threads = replicate n (c.fp, at_load) }) v
    → (v.cell.fp ≡ c.fp) × (v.cell.value + waiting v.threads ≡ c.value + n)
own_flow_exact c n v pos small r =
    let first : OwnFlow c.fp (c.value + n)
        (record { cell = c; threads = replicate n (c.fp, at_load) }) =
      record {
        mine = refl;
        some_there = pos;
        sum = omega (arith, waiting-replicate c.fp n);
        threads = fresh_threads c.fp n;
      } in
    let k = Reach-OwnFlow c.fp (c.value + n) small r first in (k.mine, k.sum)

alone : Bytes → Cell → Point → Shared
alone f c p = record { cell = c; threads = (f, p) ∷ [] }

one_more :
    (s : Shared) (f : Bytes) (c d : Cell) (a b : Point)
    → Reach s (alone f c a)
    → advance f a c ≡ (d, b)
    → Reach s (alone f d b)
unfolding alone step
one_more s f c d a b r e = next r 0 (ground (arith, e))

-- A goroutine that runs alone comes to its end, and has then done to the cell what `update_count`
-- says.
pub alone_is_update_count :
    (flow : Bytes) (c : Cell)
    → Reach
        (record { cell = c; threads = (flow, at_load) ∷ [] })
        (record { cell = update_count flow c; threads = (flow, finished) ∷ [] })
unfolding alone advance update_count
alone_is_update_count flow c =
    let s = alone flow c at_load in
    elim (Bool-cases (c.value == 0)) [
      | inl empty ↦
          let d : Cell = record c { value = 1 } in
          let r1 = one_more s flow c c at_load (at_swap 0 1 true) here (rw empty refl) in
          let r2 = one_more s flow c d (at_swap 0 1 true) at_copy r1 (rw empty refl) in
          let r3 =
            one_more s flow d (record { fp = copy c.fp flow; value = 1 }) at_copy finished r2
              refl in
          rw empty r3
      | inr full ↦
          let r1 = one_more s flow c c at_load (at_compare c.value) here (rw full refl) in
          let still : (c.value == c.value) ≡ true = ground arith in
          elim (Bool-cases (bytes_eq c.fp flow)) [
            | inl mine ↦
                let n = u32 (c.value + 1) in
                let r2 =
                  one_more s flow c c (at_compare c.value) (at_swap c.value n false) r1
                    (rw mine refl) in
                let r3 =
                  one_more s flow c (record c { value = n }) (at_swap c.value n false) finished r2
                    (rw still refl) in
                rw (full, mine) r3
            | inr other ↦
                let n = c.value - 1 in
                let r2 =
                  one_more s flow c c (at_compare c.value) (at_swap c.value n (n == 0)) r1
                    (rw other refl) in
                elim (Bool-cases (n == 0)) [
                  | inl last ↦
                      let r3 =
                        one_more s flow c (record c { value = n }) (at_swap c.value n (n == 0))
                          at_copy r2 (rw (still, last) refl) in
                      let r4 =
                        one_more s flow (record c { value = n })
                          (record { fp = copy c.fp flow; value = n }) at_copy finished r3 refl in
                      rw (full, other, last) r4
                  | inr more ↦
                      let r3 =
                        one_more s flow c (record c { value = n }) (at_swap c.value n (n == 0))
                          finished r2 (rw (still, more) refl) in
                      rw (full, other, more) r3
                ]
          ]
    ]
