-- ===== src/CountMin/Upper.antt =====
-- The sketch never overestimates: a counter is at most what was inserted under its fingerprint.
use go2net_spectra.Base.{
  ℕ, ◌/◌, ◌%◌, ◌^◌, ◌≤◌, ◌<◌, ◌≡◌, arith, Bytes, bytes_eq→eq, bytes_eq_refl, copy-same_length,
  length, List, [], ◌∷◌, All, All-set, All-replicate, All-get_or, All-map,
}
use go2net_spectra.Base.Bits.{bit_or-shifted}
use go2net_spectra.CountMin.{
  Bucket, CountMin, empty_bucket, new_count_min, update_bucket, index, bucket_at, insert_rows,
  insert_flow, query_rows, query, match_max,
}
use go2net_spectra.CountMin.Shape.{BucketShape, RowShape, IsValid, index-lt, new_count_min-IsValid}
use go2net_spectra.CountMin.History.{
  Observation, after, Fits, occurrences, total_size, after-IsValid,
}

module _ (past : List Observation) where
  abbrev pub Honest : Bucket → Type 0
  Honest b =
      (b.count.value ≤ occurrences b.count.fp past) × (b.size.value ≤ total_size b.size.fp past)

-- One update of a bucket by a new observation.
update_bucket-Honest :
    (fs : ℕ) (past : List Observation) (o : Observation) (b : Bucket)
    → Fits fs o
    → BucketShape fs b
    → Honest past b
    → Honest (o ∷ past) (update_bucket o.flow o.size b)
unfolding update_bucket
update_bucket-Honest fs past o b h s k = ground (
  arith,
  copy-same_length b.count.fp o.flow,
  copy-same_length b.size.fp o.flow,
  bytes_eq_refl o.flow,
  bytes_eq→eq b.count.fp o.flow,
  bytes_eq→eq b.size.fp o.flow,
)

-- A bucket that the observation does not reach.
Honest-later :
    (past : List Observation) (o : Observation) (b : Bucket) → Honest past b → Honest (o ∷ past) b
Honest-later past o b k = ground arith

abbrev pub AllHonest : List Observation → List (List Bucket) → Type 0
AllHonest past rows = All (All (Honest past)) rows

AllHonest-later :
    (past : List Observation) (o : Observation) (rows : List (List Bucket))
    → AllHonest past rows
    → AllHonest (o ∷ past) rows
AllHonest-later past o rows h =
    All-map (All (Honest past)) rows (λ row. All-map (Honest past) row (Honest-later past o)) h

insert_rows-Honest :
    (fs w : ℕ) (past : List Observation) (o : Observation) (seeds : List ℕ)
    (rows : List (List Bucket))
    → 0 < w
    → Fits fs o
    → All (RowShape fs w) rows
    → AllHonest past rows
    → AllHonest (o ∷ past) (insert_rows w o.flow o.size seeds rows)
unfolding insert_rows
insert_rows-Honest fs w past o [] rows hw h sh k = AllHonest-later past o rows k
insert_rows-Honest fs w past o (s ∷ seeds) [] hw h sh k = tt
insert_rows-Honest fs w past o (s ∷ seeds) (row ∷ rows) hw h (r, sh) (k, ks) =
    let j : ℕ = index w o.flow s in
    let below : j < length row = omega (arith, index-lt w o.flow s hw) in
    let b = All-get_or (BucketShape fs) row j (empty_bucket 0) r.1 below in
    let hb = All-get_or (Honest past) row j (empty_bucket 0) k below in
    (
      All-set (Honest (o ∷ past)) row j _ (All-map (Honest past) row (Honest-later past o) k)
          (update_bucket-Honest fs past o _ h b hb),
      insert_rows-Honest fs w past o seeds rows hw h sh ks,
    )

empty_bucket-Honest : (fs : ℕ) → Honest [] (empty_bucket fs)
unfolding empty_bucket
empty_bucket-Honest fs = omega arith

pub new_count_min-Honest :
    (rand : ℕ → ℕ) (width depth st ct fs : ℕ)
    → AllHonest [] (new_count_min rand width depth st ct fs).table
unfolding new_count_min
new_count_min-Honest rand width depth st ct fs =
    All-replicate _ _ _ (All-replicate _ _ _ (empty_bucket-Honest fs))

-- Every bucket of the table is honest after any history.
pub after-Honest :
    (fs : ℕ) (t : CountMin) (past : List Observation)
    → IsValid fs t
    → AllHonest [] t.table
    → All (Fits fs) past
    → AllHonest past (after t past).table
unfolding insert_flow
after-Honest fs t [] v k a = k
after-Honest fs t (o ∷ past) v k (h, a) =
    let u = after-IsValid fs t past a v in
    insert_rows-Honest fs (after t past).w past o (after t past).seed (after t past).table u.wide h
      u.shaped (after-Honest fs t past v k a)

-- The size half of the loop of `Query` stays a 32-bit word.
query_rows-lt :
    (fs w : ℕ) (flow : Bytes) (seeds : List ℕ) (rows : List (List Bucket)) (sz ct : ℕ)
    → 0 < w
    → All (RowShape fs w) rows
    → sz < 2 ^ 32
    → (query_rows w flow seeds rows sz ct).0 < 2 ^ 32
unfolding query_rows
query_rows-lt fs w flow [] rows sz ct hw sh h = h
query_rows-lt fs w flow (s ∷ seeds) [] sz ct hw sh h = h
query_rows-lt fs w flow (s ∷ seeds) (row ∷ rows) sz ct hw (r, sh) h =
    let j : ℕ = index w flow s in
    let below : j < length row = omega (arith, index-lt w flow s hw) in
    let shape = All-get_or (BucketShape fs) row j (empty_bucket 0) r.1 below in
    let b = bucket_at row j in
    query_rows-lt fs w flow seeds rows (match_max flow b.size sz) (match_max flow b.count ct) hw sh
      (ground arith)

-- The two words of the result of `Query` are the two maxima.
pub query_words :
    (fs : ℕ) (t : CountMin) (flow : Bytes)
    → IsValid fs t
    → let r = query_rows t.w flow t.seed t.table 0 0 in
      (query t flow / 2 ^ 32 ≡ r.1) × (query t flow % 2 ^ 32 ≡ r.0)
unfolding query
query_words fs t flow v =
    let r = query_rows t.w flow t.seed t.table 0 0 in
    let small = query_rows-lt fs t.w flow t.seed t.table 0 0 v.wide v.shaped (omega arith) in
    omega (arith, bit_or-shifted 32 r.1 r.0 small, small)

-- The two maxima stay below bounds that hold of every bucket.
query_rows-le :
    (fs w : ℕ) (past : List Observation) (flow : Bytes) (seeds : List ℕ) (rows : List (List Bucket))
    (sz ct : ℕ)
    → 0 < w
    → All (RowShape fs w) rows
    → AllHonest past rows
    → sz ≤ total_size flow past
    → ct ≤ occurrences flow past
    → let r = query_rows w flow seeds rows sz ct in
      (r.0 ≤ total_size flow past) × (r.1 ≤ occurrences flow past)
unfolding query_rows
query_rows-le fs w past flow [] rows sz ct hw sh k hs hc = (hs, hc)
query_rows-le fs w past flow (s ∷ seeds) [] sz ct hw sh k hs hc = (hs, hc)
query_rows-le fs w past flow (s ∷ seeds) (row ∷ rows) sz ct hw (r, sh) (k, ks) hs hc =
    let j : ℕ = index w flow s in
    let below : j < length row = omega (arith, index-lt w flow s hw) in
    let honest = All-get_or (Honest past) row j (empty_bucket 0) k below in
    let b = bucket_at row j in
    query_rows-le fs w past flow seeds rows (match_max flow b.size sz) (match_max flow b.count ct)
      hw sh ks (ground (arith, bytes_eq→eq b.size.fp flow))
      (ground (arith, bytes_eq→eq b.count.fp flow))

-- A new sketch, after any history of keys of its length: the high word of `Query` is at most the
-- number of the flow's insertions, and the low word at most the bytes that were inserted for it.
pub query_never_overestimates :
    (rand : ℕ → ℕ) (width depth st ct fs : ℕ) (past : List Observation) (flow : Bytes)
    → All (Fits fs) past
    → let q = query (after (new_count_min rand width depth st ct fs) past) flow in
      (q / 2 ^ 32 ≤ occurrences flow past) × (q % 2 ^ 32 ≤ total_size flow past)
query_never_overestimates rand width depth st ct fs past flow a =
    let t = new_count_min rand width depth st ct fs in
    let start = new_count_min-IsValid rand width depth st ct fs in
    let v = after-IsValid fs t past a start in
    let u = after t past in
    let h =
      query_rows-le fs u.w past flow u.seed u.table 0 0 v.wide v.shaped
        (after-Honest fs t past start (new_count_min-Honest rand width depth st ct fs) a)
        (omega arith) (omega arith) in
    omega (arith, query_words fs u flow v, h)
