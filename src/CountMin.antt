-- ===== src/CountMin.antt =====
-- The count-min sketch: internal/engine/impl/sketch/statistic/count_min.go and sketch.go.
-- `Insert` is the code of one goroutine that runs alone: each compare-and-swap then succeeds at the
-- first attempt, and each of the retry loops is one round. `Shared` has the steps of several.
pub mod Shape
pub mod History
pub mod Upper
pub mod Majority
pub mod Heavy
pub mod Found
pub mod Reset
pub mod Shared
mod Tests
use go2net_spectra.Base.{
  ℕ, zero, suc, ◌+◌, ◌-◌, ◌*◌, ◌%◌, ◌^◌, max, bit_or, ◌==◌, ltb, leb, if◌then◌else◌, Bytes,
  bytes_eq, copy, List, [], ◌∷◌, ◌++◌, map, Option, none, some, get_or, set, replicate, length,
}
use go2net_spectra.Base.Dict.{lookup, insert}
use go2net_spectra.Base.Sort.{sort_desc}
use go2net_spectra.Murmur.{u32, murmur_hash3}

-- `PacketCount` and `PacketSize`: a fingerprint and its counter.
pub record Cell : Type 0 where
  pub fp : Bytes
  pub value : ℕ

-- `Bucket`, less its mutex, which only `Reset` takes.
pub record Bucket : Type 0 where
  pub count : Cell
  pub size : Cell

pub record CountMin : Type 0 where
  pub w : ℕ
  pub d : ℕ
  pub size_thereshold : ℕ
  pub count_thereshold : ℕ
  pub seed : List ℕ
  pub table : List (List Bucket)

pub record HeavyHitter : Type 0 where
  pub flow : Bytes
  pub value : ℕ

pub record HeavyRecord : Type 0 where
  pub size : List HeavyHitter
  pub count : List HeavyHitter

abbrev pub default_width : ℕ
default_width = 2 ^ 20

abbrev pub default_depth : ℕ
default_depth = 3

abbrev pub default_size_thereshold : ℕ
default_size_thereshold = 512 * 1024

abbrev pub default_count_thereshold : ℕ
default_count_thereshold = 512

abbrev pub or_default : ℕ → ℕ → ℕ
or_default x d = if x == 0 then d else x

unfoldable pub empty_bucket : ℕ → Bucket
empty_bucket fs = record {
  count = record { fp = replicate fs 0; value = 0 };
  size = record { fp = replicate fs 0; value = 0 };
}

-- `rand i` is the seed that the i-th call of `rand.Uint32` returns.
pub draw : (ℕ → ℕ) → ℕ → ℕ → List ℕ
draw rand i zero = []
draw rand i (suc n) = rand i ∷ draw rand (i + 1) n

unfoldable pub new_count_min : (ℕ → ℕ) → ℕ → ℕ → ℕ → ℕ → ℕ → CountMin
unfolding draw empty_bucket
new_count_min rand width depth st ct fs =
    let w = or_default width default_width in
    let d = or_default depth default_depth in
    record {
      w = w;
      d = d;
      size_thereshold = or_default st default_size_thereshold;
      count_thereshold = or_default ct default_count_thereshold;
      seed = draw rand 0 d;
      table = replicate d (replicate w (empty_bucket fs));
    }

-- "Update Size" of `Insert`.
unfoldable pub update_size : Bytes → ℕ → Cell → Cell
update_size flow size c =
    if c.value == 0
    then record { fp = copy c.fp flow; value = size }
    else if bytes_eq c.fp flow
    then record c { value = u32 (c.value + size) }
    else if ltb c.value size
    then record { fp = copy c.fp flow; value = size }
    else record c { value = c.value - size }

-- "Update Count" of `Insert`.
unfoldable pub update_count : Bytes → Cell → Cell
update_count flow c =
    if c.value == 0
    then record { fp = copy c.fp flow; value = 1 }
    else if bytes_eq c.fp flow
    then record c { value = u32 (c.value + 1) }
    else record { fp = if c.value - 1 == 0 then copy c.fp flow else c.fp; value = c.value - 1 }

unfoldable pub update_bucket : Bytes → ℕ → Bucket → Bucket
unfolding update_size update_count
update_bucket flow size b = record {
  count = update_count flow b.count;
  size = update_size flow size b.size;
}

-- The column of the flow in the row with the seed `s`.
unfoldable pub index : ℕ → Bytes → ℕ → ℕ
index w flow s = murmur_hash3 flow s % w

-- The bucket of a row at an index, which `Shape` shows to be in range.
abbrev pub bucket_at : List Bucket → ℕ → Bucket
bucket_at row j = get_or row j (empty_bucket 0)

-- The loop over `i < d`: the i-th seed goes with the i-th row.
unfoldable pub insert_rows : ℕ → Bytes → ℕ → List ℕ → List (List Bucket) → List (List Bucket)
unfolding update_bucket index
insert_rows w flow size [] rows = rows
insert_rows w flow size (s ∷ seeds) [] = []
insert_rows w flow size (s ∷ seeds) (row ∷ rows) =
    let j = index w flow s in
    set row j (update_bucket flow size (bucket_at row j)) ∷ insert_rows w flow size seeds rows

-- `Insert`; the sketch does not use `elem`.
unfoldable pub insert_flow : CountMin → Bytes → Bytes → ℕ → CountMin
unfolding insert_rows
insert_flow t flow elem size = record t { table = insert_rows t.w flow size t.seed t.table }

-- `if bytes.Equal(c.FP, flow) { best = max(best, c.value) }`
abbrev pub match_max : Bytes → Cell → ℕ → ℕ
match_max flow c best = if bytes_eq c.fp flow then max best c.value else best

-- The two maxima of the loop of `Query`: (sz, ct).
unfoldable pub query_rows : ℕ → Bytes → List ℕ → List (List Bucket) → ℕ → ℕ → ℕ × ℕ
unfolding index
query_rows w flow [] rows sz ct = (sz, ct)
query_rows w flow (s ∷ seeds) [] sz ct = (sz, ct)
query_rows w flow (s ∷ seeds) (row ∷ rows) sz ct =
    let b = bucket_at row (index w flow s) in
    query_rows w flow seeds rows (match_max flow b.size sz) (match_max flow b.count ct)

unfoldable pub query : CountMin → Bytes → ℕ
unfolding query_rows
query t flow = let (sz, ct) = query_rows t.w flow t.seed t.table 0 0 in bit_or (ct * 2 ^ 32) sz

-- One bucket's entry in `sizeMap` or `countMap`.
unfoldable pub note_cell : Cell → List (Bytes × ℕ) → List (Bytes × ℕ)
note_cell c m =
    if ltb 0 c.value
    then elim (lookup c.fp m) [
      | some cur ↦ insert c.fp (max cur c.value) m
      | none ↦ insert c.fp c.value m
    ]
    else m

unfoldable pub note_row : (Bucket → Cell) → List Bucket → List (Bytes × ℕ) → List (Bytes × ℕ)
unfolding note_cell
note_row cell [] m = m
note_row cell (b ∷ row) m = note_row cell row (note_cell (cell b) m)

unfoldable pub note_table :
    (Bucket → Cell) → List (List Bucket) → List (Bytes × ℕ) → List (Bytes × ℕ)
unfolding note_row
note_table cell [] m = m
note_table cell (row ∷ rows) m = note_table cell rows (note_row cell row m)

unfoldable pub over_threshold : ℕ → List (Bytes × ℕ) → List HeavyHitter
over_threshold limit [] = []
over_threshold limit ((k, v) ∷ m) =
    if leb limit v
    then record { flow = k; value = v } ∷ over_threshold limit m
    else over_threshold limit m

unfoldable pub heavy_hitters : CountMin → HeavyRecord
unfolding note_table over_threshold
heavy_hitters t = record {
  size =
      sort_desc (λ h. h.value)
        (over_threshold t.size_thereshold (note_table (λ b. b.size) t.table []));
  count =
      sort_desc (λ h. h.value)
        (over_threshold t.count_thereshold (note_table (λ b. b.count) t.table []));
}

unfoldable pub clear_cell : Cell → Cell
clear_cell c = record { fp = map (λ _. 0) c.fp; value = 0 }

unfoldable pub clear_bucket : Bucket → Bucket
unfolding clear_cell
clear_bucket b = record { count = clear_cell b.count; size = clear_cell b.size }

unfoldable pub reset : CountMin → CountMin
unfolding clear_bucket
reset t = record t { table = map (map clear_bucket) t.table }
