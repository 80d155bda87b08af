-- ===== src/CountMin/Found.antt =====
-- From the insertions to the report: which flows `HeavyHitters` cannot miss, and with what counts.
use mathlib.Core.List.{Mem}
use go2net_spectra.Base.{
  ℕ, zero, suc, ◌+◌, ◌^◌, ◌≤◌, ◌<◌, ◌≡◌, refl, arith, Bytes, bytes_eq→eq, List, [], ◌∷◌, All,
  get_elem?, length, some,
}
use go2net_spectra.CountMin.{Cell, Bucket, CountMin, new_count_min, index, bucket_at, heavy_hitters}
use go2net_spectra.CountMin.Shape.{RowShape, IsValid, index-lt, new_count_min-IsValid}
use go2net_spectra.CountMin.History.{
  used, Observation, after, Fits, occurrences, rivals, after-IsValid,
}
use go2net_spectra.CountMin.Upper.{Honest, after-Honest, new_count_min-Honest}
use go2net_spectra.CountMin.Majority.{AllVotes, after-Votes, new_count_min-Votes}
use go2net_spectra.CountMin.Heavy.{weight, peak_row, peak, heavy_hitters_report}

abbrev count_of : Bucket → Cell
count_of b = b.count

peak_row-ge :
    (f : Bytes) (row : List Bucket) (j : ℕ)
    → j < length row
    → weight (bucket_at row j).count f ≤ peak_row count_of f row
peak_row-ge f [] j h = absurd (omega arith)
peak_row-ge f (b ∷ row) zero h = omega arith
peak_row-ge f (b ∷ row) (suc j) h = omega (arith, peak_row-ge f row j (omega arith))

-- A flow with more insertions than rivals holds its bucket.
peak-Votes :
    (fs w : ℕ) (f : Bytes) (past : List Observation) (seeds : List ℕ) (rows : List (List Bucket))
    (i s : ℕ)
    → 0 < w
    → All (RowShape fs w) rows
    → AllVotes w f past seeds rows
    → get_elem? seeds i ≡ some s
    → occurrences f past ≤ peak count_of f rows + rivals w s f past
peak-Votes fs w f past [] rows i s hw sh v e = absurd (cc e)
peak-Votes fs w f past (r ∷ seeds) [] i s hw sh v e = absurd v
peak-Votes fs w f past (r ∷ seeds) (row ∷ rows) zero s hw (sh, _) (v, _) e =
    let below : index w f r < length row = omega (arith, index-lt w f r hw) in
    ground (arith, peak_row-ge f row (index w f r) below)
peak-Votes fs w f past (r ∷ seeds) (row ∷ rows) (suc i) s hw (_, sh) (_, vs) e =
    omega (arith, peak-Votes fs w f past seeds rows i s hw sh vs e)

peak_row-le :
    (f : Bytes) (past : List Observation) (row : List Bucket)
    → All (Honest past) row
    → peak_row count_of f row ≤ occurrences f past
peak_row-le f past [] h = omega arith
peak_row-le f past (b ∷ row) (h, hs) =
    ground (arith, peak_row-le f past row hs, bytes_eq→eq b.count.fp f)

peak-le :
    (f : Bytes) (past : List Observation) (rows : List (List Bucket))
    → All (All (Honest past)) rows
    → peak count_of f rows ≤ occurrences f past
peak-le f past [] h = omega arith
peak-le f past (row ∷ rows) (h, hs) =
    omega (arith, peak_row-le f past row h, peak-le f past rows hs)

-- The `let`s of the theorem: a new sketch, and the sketch after the history.
module _ (rand : ℕ → ℕ) (width depth st ct fs : ℕ) (past : List Observation) (f : Bytes)
    (fits : All (Fits fs) past) (short : length past < 2 ^ 32) where
  abbrev start : CountMin
  start = new_count_min rand width depth st ct fs

  start-IsValid : IsValid fs start
  start-IsValid = new_count_min-IsValid rand width depth st ct fs

  after-peak-le : peak count_of f (after start past).table ≤ occurrences f past
  after-peak-le = peak-le f past (after start past).table (
      after-Honest fs start past start-IsValid (new_count_min-Honest rand width depth st ct fs)
        fits)

  after-peak-ge :
      (i s : ℕ)
      → get_elem? (after start past).seed i ≡ some s
      → occurrences f past
        ≤ peak count_of f (after start past).table + rivals (after start past).w s f past
  after-peak-ge i s e =
      let v = after-IsValid fs start past fits start-IsValid in
      peak-Votes fs (after start past).w f past (after start past).seed (after start past).table i s
        v.wide v.shaped
        (after-Votes fs start f past start-IsValid (new_count_min-Votes rand width depth st ct fs f)
          fits short)
        e

-- A new sketch, after fewer than 2 ^ 32 insertions of keys of its length: a flow whose insertions
-- outnumber those of its rivals in the bucket of some row by the count threshold, which is positive,
-- is reported by count. The value is at most the number of its insertions, and falls short of it by
-- at most the number of rival insertions.
pub heavy_flow_reported :
    (rand : ℕ → ℕ) (width depth st ct fs : ℕ) (past : List Observation) (f : Bytes) (i s : ℕ)
    → All (Fits fs) past
    → length past < 2 ^ 32
    → get_elem? (used rand width depth st ct fs past).seed i ≡ some s
    → 0 < (used rand width depth st ct fs past).count_thereshold
    → rivals (used rand width depth st ct fs past).w s f past
        + (used rand width depth st ct fs past).count_thereshold
      ≤ occurrences f past
    → (v : ℕ) × Mem
        (record { flow = f; value = v })
        (heavy_hitters (used rand width depth st ct fs past)).count
      × (v ≤ occurrences f past)
      × (occurrences f past ≤ v + rivals (used rand width depth st ct fs past).w s f past)
heavy_flow_reported rand width depth st ct fs past f i s fits short e pos heavy =
    let t = after (new_count_min rand width depth st ct fs) past in
    let v = peak count_of f t.table in
    let ge = after-peak-ge rand width depth st ct fs past f fits short i s e in
    let le = after-peak-le rand width depth st ct fs past f fits short in
    (
      v,
      (heavy_hitters_report t (record { flow = f; value = v })).1.1
          (refl, omega (arith, ge), omega (arith, ge)),
      le,
      ge,
    )
