-- ===== src/CountMin/Shape.antt =====
-- The representation invariant of the sketch: every index that `Insert` and `Query` compute is in
-- range, fingerprints keep the flow's length, and counters are 32-bit words.
use go2net_spectra.Base.{
  ℕ, zero, suc, ◌+◌, ◌^◌, ◌<◌, ◌≡◌, refl, ap, arith, Bytes, length, List, [], ◌∷◌, length-replicate,
  length-set, length-copy, All, All-set, All-replicate, All-get_or,
}
use go2net_spectra.CountMin.{
  Cell, Bucket, CountMin, empty_bucket, draw, new_count_min, update_bucket, index, bucket_at,
  insert_rows, insert_flow,
}

abbrev pub CellShape : ℕ → Cell → Type 0
CellShape fs c = (length c.fp ≡ fs) × (c.value < 2 ^ 32)

abbrev pub BucketShape : ℕ → Bucket → Type 0
BucketShape fs b = CellShape fs b.count × CellShape fs b.size

abbrev pub RowShape : ℕ → ℕ → List Bucket → Type 0
RowShape fs w row = (length row ≡ w) × All (BucketShape fs) row

-- `fs` is the length of a flow key.
pub record IsValid (fs : ℕ) (t : CountMin) : Type 0 where
  pub wide : 0 < t.w
  pub seeds : length t.seed ≡ t.d
  pub rows : length t.table ≡ t.d
  pub shaped : All (RowShape fs t.w) t.table

pub index-lt : (w : ℕ) (flow : Bytes) (s : ℕ) → 0 < w → index w flow s < w
unfolding index
index-lt w flow s h = omega arith

empty_bucket-shape : (fs : ℕ) → BucketShape fs (empty_bucket fs)
unfolding empty_bucket
empty_bucket-shape fs = omega (arith, length-replicate {0} {A = ℕ} fs 0)

length-draw : (rand : ℕ → ℕ) (i n : ℕ) → length (draw rand i n) ≡ n
unfolding draw
length-draw rand i zero = refl
length-draw rand i (suc n) = ap suc (length-draw rand (i + 1) n)

-- `NewCountMin` returns a well-formed sketch, whatever its arguments.
pub new_count_min-IsValid :
    (rand : ℕ → ℕ) (width depth st ct fs : ℕ) → IsValid fs (new_count_min rand width depth st ct fs)
unfolding new_count_min
new_count_min-IsValid rand width depth st ct fs = record {
  wide = ground arith;
  seeds = length-draw rand 0 _;
  rows = length-replicate _ _;
  shaped = All-replicate _ _ _ (length-replicate _ _, All-replicate _ _ _ (empty_bucket-shape fs));
}

update_bucket-shape :
    (fs : ℕ) (flow : Bytes) (size : ℕ) (b : Bucket)
    → size < 2 ^ 32
    → BucketShape fs b
    → BucketShape fs (update_bucket flow size b)
unfolding update_bucket
update_bucket-shape fs flow size b h s =
    ground (arith, length-copy b.count.fp flow, length-copy b.size.fp flow)

insert_rows-shape :
    (fs w : ℕ) (flow : Bytes) (size : ℕ) (seeds : List ℕ) (rows : List (List Bucket))
    → 0 < w
    → size < 2 ^ 32
    → length seeds ≡ length rows
    → All (RowShape fs w) rows
    → (length (insert_rows w flow size seeds rows) ≡ length rows)
      × All (RowShape fs w) (insert_rows w flow size seeds rows)
unfolding insert_rows
insert_rows-shape fs w flow size [] [] hw hs e a = (refl, tt)
insert_rows-shape fs w flow size [] (row ∷ rows) hw hs e a = absurd (omega arith)
insert_rows-shape fs w flow size (s ∷ seeds) [] hw hs e a = absurd (omega arith)
insert_rows-shape fs w flow size (s ∷ seeds) (row ∷ rows) hw hs e (r, a) =
    let j : ℕ = index w flow s in
    let below : j < length row = omega (arith, index-lt w flow s hw) in
    let rest = insert_rows-shape fs w flow size seeds rows hw hs (omega arith) a in
    let b = All-get_or (BucketShape fs) row j (empty_bucket 0) r.1 below in
    (
      ap suc rest.0,
      (
        (
          omega (arith, length-set row j (update_bucket flow size (bucket_at row j))),
          All-set (BucketShape fs) row j _ r.1 (update_bucket-shape fs flow size _ hs b),
        ),
        rest.1,
      ),
    )

-- `Insert` keeps the sketch well formed.
pub insert_flow-IsValid :
    (fs : ℕ) (t : CountMin) (flow elem : Bytes) (size : ℕ)
    → size < 2 ^ 32
    → IsValid fs t
    → IsValid fs (insert_flow t flow elem size)
unfolding insert_flow
insert_flow-IsValid fs t flow elem size h v =
    let s = insert_rows-shape fs t.w flow size t.seed t.table v.wide h (omega arith) v.shaped in
    record { wide = v.wide; seeds = v.seeds; rows = omega arith; shaped = s.1 }
