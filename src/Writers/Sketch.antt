-- ===== src/Writers/Sketch.antt =====
-- The rows of a sketch's snapshot, by their column `Type`, which the queries select on.
use go2net_spectra.Base.{
  ℕ, ◌≡◌, ◌==◌, refl, ap, sym, ◌∙◌, arith, Bytes, List, [], ◌∷◌, ◌++◌, map, some, Bool, true, false,
  if◌then◌else◌, inl, inr, Bool-cases, Option-cases,
}
use go2net_spectra.CountMin.{HeavyHitter, HeavyRecord}
use go2net_spectra.Writers.{Batch, sent, HeavyRow, heavy_row, append_hitters, write_hitters}

-- The rows of one kind.
abbrev pub of_kind : ℕ → List HeavyRow → List HeavyRow
of_kind k [] = []
of_kind k (r ∷ rows) = if r.kind == k then r ∷ of_kind k rows else of_kind k rows

of_kind-append :
    (k : ℕ) (xs ys : List HeavyRow) → of_kind k (xs ++ ys) ≡ of_kind k xs ++ of_kind k ys
of_kind-append k [] ys = refl
of_kind-append k (x ∷ xs) ys = ground (arith, of_kind-append k xs ys)

append_nil : {A : Type 0} (xs : List A) → xs ++ [] ≡ xs
append_nil [] = refl
append_nil (x ∷ xs) = ap (λ l. x ∷ l) (append_nil xs)

append_snoc : {A : Type 0} (xs : List A) (y : A) (ys : List A) → xs ++ y ∷ ys ≡ (xs ++ y ∷ []) ++ ys
append_snoc [] y ys = refl
append_snoc (x ∷ xs) y ys = ap (λ l. x ∷ l) (append_snoc xs y ys)

module _ (decode : Bytes → Bytes) (name : Bytes) where
  -- The rows of a list of hitters.
  abbrev pub rows_of : ℕ → List HeavyHitter → List HeavyRow
  rows_of kind hs = map (heavy_row decode name kind) hs

  of_kind-same : (k : ℕ) (hs : List HeavyHitter) → of_kind k (rows_of k hs) ≡ rows_of k hs
  unfolding heavy_row
  of_kind-same k [] = refl
  of_kind-same k (h ∷ hs) = ground (arith, of_kind-same k hs)

  of_kind-other :
      (k j : ℕ) (hs : List HeavyHitter) → (j == k) ≡ false → of_kind k (rows_of j hs) ≡ []
  unfolding heavy_row
  of_kind-other k j [] e = refl
  of_kind-other k j (h ∷ hs) e = ground (arith, e, of_kind-other k j hs e)

  append_hitters_lem :
      (appends : HeavyRow → Bool) (kind : ℕ) (hs : List HeavyHitter) (rows out : List HeavyRow)
      → append_hitters appends decode name kind hs rows ≡ some out
      → rows ++ rows_of kind hs ≡ out
  unfolding append_hitters
  append_hitters_lem appends kind [] rows out e = append_nil rows ∙ cc e
  append_hitters_lem appends kind (h ∷ hs) rows out e =
      let row = heavy_row decode name kind h in
      elim (Bool-cases (appends row)) [
        | inr refused ↦ absurd (ground (arith, e, refused))
        | inl taken ↦
            append_snoc rows row (rows_of kind hs)
            ∙ append_hitters_lem appends kind hs (rows ++ row ∷ []) out (ground (arith, e, taken))
      ]

  -- What the writer sends for a count-min sketch, and for a spread sketch.
  write_hitters-sent :
      (b : Batch HeavyRow) (r : HeavyRecord) (nil_sizes : Bool) (rows : List HeavyRow)
      → write_hitters b decode name nil_sizes r ≡ sent rows
      → (if nil_sizes then rows_of 2 r.count else rows_of 1 r.size ++ rows_of 0 r.count) ≡ rows
  unfolding write_hitters
  write_hitters-sent b r true rows e =
      elim (Option-cases (append_hitters b.appends decode name 2 r.count [])) [
        | inl failed ↦ absurd (ground (arith, e, failed))
        | inr (out, made) ↦
            append_hitters_lem b.appends 2 r.count [] out made ∙ ground (arith, e, made)
      ]
  write_hitters-sent b r false rows e =
      elim (Option-cases (append_hitters b.appends decode name 1 r.size [])) [
        | inl failed ↦ absurd (ground (arith, e, failed))
        | inr (sizes, made) ↦
            elim (Option-cases (append_hitters b.appends decode name 0 r.count sizes)) [
              | inl failed ↦ absurd (ground (arith, e, made, failed))
              | inr (out, more) ↦
                  ap (λ l. l ++ rows_of 0 r.count)
                    (append_hitters_lem b.appends 1 r.size [] sizes made)
                  ∙ (append_hitters_lem b.appends 0 r.count sizes out more
                      ∙ ground (arith, e, made, more))
            ]
      ]

  -- When the ClickHouse writer sends rows for the report of a count-min sketch, those of type 1 are its
  -- flows by size, and those of type 0 its flows by count, each list whole, in its order and decoded,
  -- and there are none of type 2. For a spread sketch those of type 2 are its flows, and there are none
  -- of the other types.
  pub write_hitters_by_type :
      (b : Batch HeavyRow) (r : HeavyRecord) (nil_sizes : Bool) (rows : List HeavyRow)
      → write_hitters b decode name nil_sizes r ≡ sent rows
      → (of_kind 0 rows ≡ (if nil_sizes then [] else rows_of 0 r.count))
        × (of_kind 1 rows ≡ (if nil_sizes then [] else rows_of 1 r.size))
        × (of_kind 2 rows ≡ (if nil_sizes then rows_of 2 r.count else []))
  write_hitters_by_type b r true rows e =
      let whole = write_hitters-sent b r true rows e in
      let part : (k : ℕ) → of_kind k rows ≡ of_kind k (rows_of 2 r.count) =
        λ k. ap (of_kind k) (sym whole) in
      (
        part 0 ∙ of_kind-other 0 2 r.count refl,
        part 1 ∙ of_kind-other 1 2 r.count refl,
        part 2 ∙ of_kind-same 2 r.count,
      )
  write_hitters_by_type b r false rows e =
      let whole = write_hitters-sent b r false rows e in
      let part : (k : ℕ)
          → of_kind k rows ≡ of_kind k (rows_of 1 r.size) ++ of_kind k (rows_of 0 r.count) =
        λ k. ap (of_kind k) (sym whole) ∙ of_kind-append k (rows_of 1 r.size) (rows_of 0 r.count) in
      (
        part 0 ∙ cc (of_kind-other 0 1 r.size refl, of_kind-same 0 r.count),
        part 1
            ∙ (ap (λ l. l ++ of_kind 1 (rows_of 0 r.count)) (of_kind-same 1 r.size)
                ∙ (ap (λ l. rows_of 1 r.size ++ l) (of_kind-other 1 0 r.count refl)
                    ∙ append_nil (rows_of 1 r.size))),
        part 2 ∙ cc (of_kind-other 2 1 r.size refl, of_kind-other 2 0 r.count refl),
      )
