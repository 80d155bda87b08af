-- ===== src/SuperSpread.antt =====
-- The spread sketch: internal/engine/impl/sketch/statistic/super_spread.go. The three matrices `cm`,
-- `keys` and `values` are one matrix of slots. As in the count-min sketch, `Insert` is the code of one
-- goroutine that runs alone: each compare-and-swap succeeds at once. The float64 operations and
-- Go's generators of random numbers are parameters.
pub mod Rows
pub mod Distinct
pub mod Counters
pub mod Spreaders
pub mod Cleared
mod Tests
use go2net_spectra.Base.{
  ℕ, zero, suc, ◌+◌, ◌-◌, ◌*◌, ◌/◌, ◌%◌, ◌^◌, min, max, ◌==◌, ltb, leb, if◌then◌else◌, Bool, Bytes,
  bytes_eq, copy, List, [], ◌∷◌, ◌++◌, map, Option, none, some, get_or, set, replicate,
}
use go2net_spectra.Base.Dict.{lookup, insert}
use go2net_spectra.Base.Sort.{sort_desc}
use go2net_spectra.Murmur.{u32, murmur_hash3}
use go2net_spectra.HyperLogLog.{
  Floats, GeneralHll, new_general_hll, encode, hll_default_m, hll_default_size,
}
use go2net_spectra.CountMin.{HeavyHitter, HeavyRecord, or_default, draw, index}

-- `cm[i][j]`, `keys[i][j]` and `values[i][j]`.
pub record Slot (F : Type 0) : Type 0 where
  pub cm : GeneralHll F
  pub key : Bytes
  pub value : ℕ

pub record SuperSpread (F : Type 0) : Type 0 where
  pub d : ℕ
  pub w : ℕ
  pub threshold : ℕ
  pub seeds : List ℕ
  pub b : F
  pub table : List (List (Slot F))

abbrev pub ss_default_threshold : ℕ
ss_default_threshold = 4096

abbrev pub ss_default_width : ℕ
ss_default_width = 2 ^ 20

abbrev pub ss_default_depth : ℕ
ss_default_depth = 3

module _ (fl : Floats) where
  -- One row of `NewSuperSpread`: n is the number of seeds that are drawn.
  new_row : (ℕ → ℕ) → ℕ → ℕ → ℕ → fl.F → ℕ → ℕ → List (Slot fl.F)
  new_row rand n m size base fs zero = []
  new_row rand n m size base fs (suc width) =
      record { cm = new_general_hll fl rand n m size base; key = replicate fs 0; value = 0 }
      ∷ new_row rand (n + (m + 1)) m size base fs width

  -- Its rows, with the seed that each draws after its slots.
  new_rows : (ℕ → ℕ) → ℕ → ℕ → ℕ → fl.F → ℕ → ℕ → ℕ → List (List (Slot fl.F)) × List ℕ
  unfolding new_row
  new_rows rand n m size base fs width zero = ([], [])
  new_rows rand n m size base fs width (suc depth) =
      let after = n + width * (m + 1) in
      let (rows, seeds) = new_rows rand (after + 1) m size base fs width depth in
      (new_row rand n m size base fs width ∷ rows, rand after ∷ seeds)

  -- `NewSuperSpread`
  unfoldable pub new_super_spread : (ℕ → ℕ) → ℕ → ℕ → ℕ → ℕ → ℕ → fl.F → fl.F → ℕ → SuperSpread fl.F
  unfolding new_rows
  new_super_spread rand width depth threshold m size base b fs =
      let w = or_default width ss_default_width in
      let d = or_default depth ss_default_depth in
      let (rows, seeds) =
        new_rows rand 0 (or_default m hll_default_m) (or_default size hll_default_size)
          (if fl.eq base fl.zero then fl.point_five else base) fs w d in
      record {
        d = d;
        w = w;
        threshold = or_default threshold ss_default_threshold;
        seeds = seeds;
        b = if fl.eq b fl.zero then fl.one_point_zero_eight else b;
        table = rows;
      }

  -- One round of the loop over `tempVV`, with the number of random floats drawn so far.
  unfoldable pub vote : (ℕ → fl.F) → fl.F → Bytes → Slot fl.F → ℕ → Slot fl.F × ℕ
  vote rand b flow s n =
      if s.value == 0
      then (record s { key = copy s.key flow; value = 1 }, n)
      else if bytes_eq s.key flow
      then (record s { value = u32 (s.value + 1) }, n)
      else if fl.lt (rand n) (fl.pow b (fl.neg (fl.of_uint32 s.value)))
      then (record s { value = s.value - 1 }, n + 1)
      else (s, n + 1)

  unfoldable pub votes : (ℕ → fl.F) → fl.F → Bytes → ℕ → Slot fl.F → ℕ → Slot fl.F × ℕ
  unfolding vote
  votes rand b flow zero s n = (s, n)
  votes rand b flow (suc k) s n = let (s', n') = vote rand b flow s n in votes rand b flow k s' n'

  -- The body of the loop over `i < d` of `Insert`.
  unfoldable pub insert_slot : (ℕ → fl.F) → fl.F → Bytes → Bytes → Slot fl.F → ℕ → Slot fl.F × ℕ
  unfolding votes
  insert_slot rand b flow merged s n =
      let (p, cm) = encode fl s.cm merged in
      let counted = record s { cm = cm } in
      let rounds = fl.ceil (fl.div fl.one p) in
      if fl.eq p fl.minus_one
      then (counted, n)
      else if fl.ge (rand n) (fl.div (fl.div fl.one p) rounds)
      then (counted, n + 1)
      else votes rand b flow (fl.to_int rounds) counted (n + 1)

  -- The slot of a row at an index, which `Distinct` shows to be in range.
  unfoldable pub no_slot : Slot fl.F
  no_slot = record {
    cm = record { m = 0; base = fl.one; max_value = 0; hll = []; seeds = []; pbits = fl.one };
    key = [];
    value = 0;
  }

  abbrev pub slot_at : List (Slot fl.F) → ℕ → Slot fl.F
  slot_at row j = get_or row j no_slot

  unfoldable pub insert_rows :
      (ℕ → fl.F)
      → fl.F
      → ℕ
      → Bytes
      → Bytes
      → List ℕ
      → List (List (Slot fl.F))
      → ℕ
      → List (List (Slot fl.F)) × ℕ
  unfolding insert_slot index
  insert_rows rand b w flow merged [] rows n = (rows, n)
  insert_rows rand b w flow merged (s ∷ seeds) [] n = ([], n)
  insert_rows rand b w flow merged (s ∷ seeds) (row ∷ rows) n =
      let j = index w flow s in
      let (slot, n') = insert_slot rand b flow merged (slot_at row j) n in
      let (rest, n'') = insert_rows rand b w flow merged seeds rows n' in
      (set row j slot ∷ rest, n'')

  -- `Insert`, on the sketch and the number of random floats drawn; the sketch does not use `size`.
  unfoldable pub insert_flow :
      (ℕ → fl.F) → SuperSpread fl.F × ℕ → Bytes → Bytes → ℕ → SuperSpread fl.F × ℕ
  unfolding insert_rows
  insert_flow rand (t, n) flow elem size =
      let (rows, n') = insert_rows rand t.b t.w flow (flow ++ elem) t.seeds t.table n in
      (record t { table = rows }, n')

  -- The loop of `Query`, and of the estimates of `HeavyHitters`.
  unfoldable pub estimate : ℕ → Bytes → List ℕ → List (List (Slot fl.F)) → ℕ → ℕ
  unfolding index
  estimate w flow [] rows best = best
  estimate w flow (s ∷ seeds) [] best = best
  estimate w flow (s ∷ seeds) (row ∷ rows) best =
      let slot = slot_at row (index w flow s) in
      estimate w flow seeds rows (
        if bytes_eq slot.key flow then (if ltb best slot.value then slot.value else best) else best)

  unfoldable pub query : SuperSpread fl.F → Bytes → ℕ
  unfolding estimate
  query t flow = max 1 (estimate t.w flow t.seeds t.table 0)

  -- `flowSet`, as a dictionary without values.
  unfoldable pub note_slots : List (Slot fl.F) → List (Bytes × ℕ) → List (Bytes × ℕ)
  note_slots [] m = m
  note_slots (s ∷ row) m = note_slots row (if ltb 0 s.value then insert s.key 1 m else m)

  unfoldable pub flow_set : List (List (Slot fl.F)) → List (Bytes × ℕ) → List (Bytes × ℕ)
  unfolding note_slots
  flow_set [] m = m
  flow_set (row ∷ rows) m = flow_set rows (note_slots row m)

  unfoldable pub spreaders : SuperSpread fl.F → List (Bytes × ℕ) → List HeavyHitter
  unfolding estimate
  spreaders t [] = []
  spreaders t ((flow, seen) ∷ m) =
      let e = estimate t.w flow t.seeds t.table 0 in
      let rest = spreaders t m in
      if leb t.threshold e then record { flow = flow; value = e } ∷ rest else rest

  unfoldable pub heavy_hitters : SuperSpread fl.F → HeavyRecord
  unfolding flow_set spreaders
  heavy_hitters t = record {
    size = [];
    count = sort_desc (λ h. h.value) (spreaders t (flow_set t.table []));
  }

  unfoldable pub clear_slot : Slot fl.F → Slot fl.F
  clear_slot s = record {
    cm = record s.cm { hll = map (λ _. 0) s.cm.hll };
    key = map (λ _. 0) s.key;
    value = 0;
  }

  unfoldable pub reset : SuperSpread fl.F → SuperSpread fl.F
  unfolding clear_slot
  reset t = record t { table = map (map clear_slot) t.table }
