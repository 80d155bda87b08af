-- ===== src/Query/Rows.antt =====
-- What the querier makes of the rows of a result, whether the result ends or breaks off.
use go2net_spectra.Base.{
  ℕ, ◌^◌, ◌<◌, ◌≡◌, ◌↔◌, refl, ap, subst, sym, arith, Bytes, text, List, [], ◌∷◌, map, Option, some,
  All, Option-cases, inl, inr, ◌⊎◌,
}
use go2net_spectra.Query.{
  Arg, HeavyHittersRequest, HeavyHitter, ok, ◌>>=◌, ok-injective, >>=-is_ok, uint64_to_int64,
  heavy_rows, heavy_hitters_sql, DriverRows, end_of_rows, broken_off, unreadable, next_row,
  query_heavy_hitters,
}

-- `uint64ToInt64` passes exactly the values that an `int64` holds, unchanged.
uint64_to_int64_lem :
    (value v : ℕ) (field : Bytes)
    → (uint64_to_int64 value field ≡ ok v) ↔ ((value ≡ v) × (v < 2 ^ 63))
unfolding uint64_to_int64
uint64_to_int64_lem value v field = (λ e. ground (arith, e), λ e. ground (arith, e.0, e.1))

abbrev pub heavy_row : HeavyHitter → Bytes × ℕ
heavy_row h = (h.flow, h.value)

abbrev pub FitsInt64 : HeavyHitter → Type 0
FitsInt64 h = h.value < 2 ^ 63

-- The result that delivers these rows first.
abbrev pub rows_then : {R : Type 0} → List R → DriverRows R → DriverRows R
rows_then [] last = last
rows_then (x ∷ xs) last = next_row x (rows_then xs last)

-- The result delivers exactly these rows, and then it ends or breaks off.
abbrev pub Delivers : {R : Type 0} → DriverRows R → List R → Type 0
Delivers rows xs = (rows ≡ rows_then xs end_of_rows) ⊎ (rows ≡ rows_then xs broken_off)

Delivers-next :
    {R : Type 0} (x : R) (rows : DriverRows R) (xs : List R)
    → Delivers rows xs
    → Delivers (next_row x rows) (x ∷ xs)
Delivers-next x rows xs (inl e) = inl (ap (next_row x) e)
Delivers-next x rows xs (inr e) = inr (ap (next_row x) e)

heavy_rows_sound :
    (rows : DriverRows (Bytes × ℕ)) (hs : List HeavyHitter)
    → heavy_rows rows ≡ ok hs
    → Delivers rows (map heavy_row hs) × All FitsInt64 hs
unfolding heavy_rows
heavy_rows_sound end_of_rows [] e = (inl refl, tt)
heavy_rows_sound end_of_rows (h ∷ hs) e = cc e
heavy_rows_sound broken_off [] e = (inr refl, tt)
heavy_rows_sound broken_off (h ∷ hs) e = cc e
heavy_rows_sound unreadable hs e = cc e
heavy_rows_sound (next_row (flow, value) rows) hs e =
    let (v, here, e1) = >>=-is_ok (uint64_to_int64 value (text "heavy_hitter.value")) _ e in
    let (rest, there, e2) = >>=-is_ok (heavy_rows rows) _ e1 in
    let (same, fits) = (uint64_to_int64_lem value v (text "heavy_hitter.value")).0 here in
    let (ih, ihs) = heavy_rows_sound rows rest there in
    let shape : record { flow = flow; value = v } ∷ rest ≡ hs = ok-injective e2 in
    subst (λ l. Delivers (next_row (flow, value) rows) (map heavy_row l) × All FitsInt64 l) shape
      (
        subst (λ n. Delivers (next_row (flow, n) rows) ((flow, v) ∷ map heavy_row rest)) (sym same)
            (Delivers-next (flow, v) rows (map heavy_row rest) ih),
        (fits, ihs),
      )

-- Whatever stands after the rows is read the same way when it reads as the empty list.
heavy_rows_complete :
    (hs : List HeavyHitter) (last : DriverRows (Bytes × ℕ))
    → heavy_rows last ≡ ok []
    → All FitsInt64 hs
    → heavy_rows (rows_then (map heavy_row hs) last) ≡ ok hs
unfolding heavy_rows
heavy_rows_complete [] last e a = e
heavy_rows_complete (h ∷ hs) last e (fits, a) = rw (
  (uint64_to_int64_lem h.value h.value (text "heavy_hitter.value")).1 (refl, fits),
  ◌>>=◌,
  heavy_rows_complete hs last e a,
  ◌>>=◌,
)

heavy_rows-Delivers :
    (rows : DriverRows (Bytes × ℕ)) (hs : List HeavyHitter)
    → Delivers rows (map heavy_row hs)
    → All FitsInt64 hs
    → heavy_rows rows ≡ ok hs
unfolding heavy_rows
heavy_rows-Delivers rows hs (inl e) a = rw e (heavy_rows_complete hs end_of_rows refl a)
heavy_rows-Delivers rows hs (inr e) a = rw e (heavy_rows_complete hs broken_off refl a)

-- `QueryHeavyHitters` answers with a list exactly when the database opens a result that delivers the
-- rows of that list and then ends or breaks off, and every value fits an `int64`. So no row that was
-- delivered is dropped, changed or reordered; and a result that breaks off after some rows is answered
-- with those rows, like a result that ends there.
pub query_heavy_hitters_lem :
    (db : Bytes × List Arg → Option (DriverRows (Bytes × ℕ))) (req : HeavyHittersRequest)
    (hs : List HeavyHitter)
    → (query_heavy_hitters db req ≡ ok hs) ↔ (
        ((rows : DriverRows (Bytes × ℕ)) × (db (heavy_hitters_sql req) ≡ some rows)
          × Delivers rows (map heavy_row hs))
        × All FitsInt64 hs)
unfolding query_heavy_hitters
query_heavy_hitters_lem db req hs = (
  λ e. elim (Option-cases (db (heavy_hitters_sql req))) [
    | inl failed ↦ absurd (ground (arith, e, failed))
    | inr (rows, got) ↦
        let read : heavy_rows rows ≡ ok hs = ground (arith, e, got) in
        let (same, fits) = heavy_rows_sound rows hs read in ((rows, got, same), fits)
  ],
  λ ((rows, got, same), fits). rw (got, ◌>>=◌) (heavy_rows-Delivers rows hs same fits),
)
