-- ===== src/CountMin/Reset.antt =====
-- `Reset` returns a used sketch to the state in which `NewCountMin` made it.
use go2net_spectra.Base.{
  ℕ, ◌≡◌, refl, ap, ap₂, ◌∙◌, sym, arith, Bytes, length, List, [], ◌∷◌, map, replicate, All,
}
use go2net_spectra.CountMin.{
  Bucket, CountMin, empty_bucket, new_count_min, insert_flow, clear_bucket, reset,
}
use go2net_spectra.CountMin.Shape.{BucketShape, RowShape, new_count_min-IsValid}
use go2net_spectra.CountMin.History.{Observation, after, Fits, after-IsValid}

map-zero : (xs : Bytes) → map {B = ℕ} (λ _. 0) xs ≡ replicate (length xs) 0
map-zero [] = refl
map-zero (x ∷ xs) = ap (λ (zs : Bytes). 0 ∷ zs) (map-zero xs)

clear_bucket-empty : (fs : ℕ) (b : Bucket) → BucketShape fs b → clear_bucket b ≡ empty_bucket fs
unfolding clear_bucket empty_bucket
clear_bucket-empty fs b (c, s) = ground (arith, map-zero b.count.fp, map-zero b.size.fp)

clear_row :
    (fs : ℕ) (row : List Bucket)
    → All (BucketShape fs) row
    → map clear_bucket row ≡ replicate (length row) (empty_bucket fs)
clear_row fs [] h = refl
clear_row fs (b ∷ row) (h, hs) = ap₂ ◌∷◌ (clear_bucket-empty fs b h) (clear_row fs row hs)

clear_rows :
    (fs w : ℕ) (rows : List (List Bucket))
    → All (RowShape fs w) rows
    → map (map clear_bucket) rows ≡ replicate (length rows) (replicate w (empty_bucket fs))
clear_rows fs w [] h = refl
clear_rows fs w (row ∷ rows) ((e, h), hs) =
    ap₂ ◌∷◌ (clear_row fs row h ∙ ap (λ n. replicate n (empty_bucket fs)) e)
      (clear_rows fs w rows hs)

-- What an insertion leaves alone.
after-start :
    (t : CountMin) (past : List Observation) → record (after t past) { table = t.table } ≡ t
unfolding insert_flow
after-start t [] = refl
after-start t (o ∷ past) = after-start t past

new_table :
    (rand : ℕ → ℕ) (width depth st ct fs : ℕ)
    → let t = new_count_min rand width depth st ct fs in
      t.table ≡ replicate t.d (replicate t.w (empty_bucket fs))
unfolding new_count_min
new_table rand width depth st ct fs = refl

-- `Reset` after any history of keys of the sketch's length gives back the new sketch: the seeds and
-- thresholds stay, and every bucket is as it was made.
pub reset-after :
    (rand : ℕ → ℕ) (width depth st ct fs : ℕ) (past : List Observation)
    → All (Fits fs) past
    → let t = new_count_min rand width depth st ct fs in reset (after t past) ≡ t
unfolding reset
reset-after rand width depth st ct fs past fits =
    let t = new_count_min rand width depth st ct fs in
    let u = after t past in
    let v = after-IsValid fs t past fits (new_count_min-IsValid rand width depth st ct fs) in
    let same = after-start t past in
    let cleared =
      clear_rows fs u.w u.table v.shaped
      ∙ ap₂ (λ n m. replicate n (replicate m (empty_bucket fs)))
          (v.rows ∙ ap (λ (x : CountMin). x.d) same) (ap (λ (x : CountMin). x.w) same)
      ∙ sym (new_table rand width depth st ct fs) in
    ap (λ rows. record u { table = rows }) cleared ∙ same
