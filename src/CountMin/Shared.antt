-- ===== src/CountMin/Shared.antt =====
-- Several goroutines in the "Update Count" loops of `Insert` of
-- internal/engine/impl/sketch/statistic/count_min.go, on one cell. A step is one atomic operation, one
-- comparison of the fingerprint or one copy of it, which the code does not do atomically.
pub mod Own
pub mod Raced
mod Tests
use go2net_spectra.Base.{
  ℕ, ◌+◌, ◌-◌, ◌==◌, Bytes, bytes_eq, copy, List, Option, none, some, Bool, true, false, get_elem?,
  set, if◌then◌else◌, ◌≡◌,
}
use go2net_spectra.Murmur.{u32}
use go2net_spectra.CountMin.{Cell}

-- Where a goroutine is: before the load, before the comparison with the value that it loaded, before
-- the swap of that value for a new one (and whether it copies its flow then), before the copy, after
-- the loop.
pub data Point : Type 0 where
  at_load : Point
  at_compare : ℕ → Point
  at_swap : ℕ → ℕ → Bool → Point
  at_copy : Point
  finished : Point

-- The cell, and each goroutine's flow and point.
pub record Shared : Type 0 where
  pub cell : Cell
  pub threads : List (Bytes × Point)

-- What one goroutine does next: the cell and its point.
unfoldable pub advance : Bytes → Point → Cell → Cell × Point
advance flow at_load c = (c, if c.value == 0 then at_swap 0 1 true else at_compare c.value)
advance flow (at_compare v) c = (
  c,
  if bytes_eq c.fp flow then at_swap v (u32 (v + 1)) false else at_swap v (v - 1) (v - 1 == 0),
)
advance flow (at_swap v new copies) c =
    if c.value == v
    then (record c { value = new }, if copies then at_copy else finished)
    else (c, at_load)
advance flow at_copy c = (record c { fp = copy c.fp flow }, finished)
advance flow finished c = (c, finished)

unfoldable pub step : Shared → ℕ → Option Shared
unfolding advance
step s i = elim (get_elem? s.threads i) [
  | none ↦ none
  | some (flow, point) ↦
      let r = advance flow point s.cell in
      some (record { cell = r.0; threads = set s.threads i (flow, r.1) })
]

-- What the goroutines can reach, in any order.
pub data Reach (s : Shared) : Shared → Type 0 where
  here : Reach s s
  next : {u v : Shared} → Reach s u → (i : ℕ) → step u i ≡ some v → Reach s v
