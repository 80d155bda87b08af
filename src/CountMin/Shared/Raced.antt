-- ===== src/CountMin/Shared/Raced.antt =====
-- The swap of the counter and the copy of the fingerprint are two steps.
use go2net_spectra.Base.{
  ℕ, ◌≡◌, refl, Bytes, eq→bytes_eq, copy-same_length, [], ◌∷◌, true, false, length,
}
use go2net_spectra.CountMin.Shared.{
  Point, at_load, at_compare, at_swap, at_copy, finished, Shared, step, Reach, here, next,
}

-- A cell with counter 0 that still has the fingerprint x, as when an insertion of x has just brought
-- the counter of another flow down to 0, and two
-- goroutines that insert x and another flow y of the same length once each: they can end with the
-- counter 2 under the fingerprint y, of which only one packet was inserted.
pub raced_cell_overcounts :
    (x y : Bytes)
    → length x ≡ length y
    → Reach
        (record { cell = record { fp = x; value = 0 }; threads = (y, at_load) ∷ (x, at_load) ∷ [] })
        (record {
          cell = record { fp = y; value = 2 };
          threads = (y, finished) ∷ (x, finished) ∷ [];
        })
unfolding step
raced_cell_overcounts x y e =
    let state : Bytes → ℕ → Point → Point → Shared =
      λ f v a b. record { cell = record { fp = f; value = v }; threads = (y, a) ∷ (x, b) ∷ [] } in
    let s = state x 0 at_load at_load in
    let mine = eq→bytes_eq x x refl in
    let r1 : Reach s (state x 0 (at_swap 0 1 true) at_load) = next here 0 refl in
    let r2 : Reach s (state x 1 at_copy at_load) = next r1 0 refl in
    let r3 : Reach s (state x 1 at_copy (at_compare 1)) = next r2 1 refl in
    let r4 : Reach s (state x 1 at_copy (at_swap 1 2 false)) = next r3 1 (rw mine refl) in
    let r5 : Reach s (state x 2 at_copy finished) = next r4 1 refl in
    next r5 0 (rw (copy-same_length x y e) refl)
