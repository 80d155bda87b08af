-- ===== src/SuperSpread/Distinct.antt =====
-- The sketch counts distinct elements: an observation that it has recorded changes nothing when it
-- comes again.
use go2net_spectra.Base.{
  ℕ, zero, suc, ◌+◌, ◌*◌, ◌<◌, ◌≡◌, refl, ap, arith, Bytes, List, [], ◌∷◌, ◌++◌, true,
  length-replicate, All,
}
use go2net_spectra.HyperLogLog.{Floats, new_general_hll, hll_default_m}
use go2net_spectra.CountMin.{index, or_default}
use go2net_spectra.CountMin.Shape.{index-lt}
use go2net_spectra.SuperSpread.{
  Slot, SuperSpread, new_row, new_rows, new_super_spread, insert_slot, slot_at, insert_rows,
  insert_flow,
}
use go2net_spectra.SuperSpread.Rows.{
  RowShape, IsValid, SeenRows, insert_slot_again, row_shape, row_seen, row_keeps, set-get_or,
}

pub record Observation : Type 0 where
  pub flow : Bytes
  pub elem : Bytes
  pub size : ℕ

module _ (fl : Floats) (rand : ℕ → fl.F) where
  insert_rows-shape :
      (b : fl.F) (w : ℕ) (flow merged : Bytes) (seeds : List ℕ) (rows : List (List (Slot fl.F)))
      (n : ℕ)
      → 0 < w
      → All (RowShape w) rows
      → All (RowShape w) (insert_rows fl rand b w flow merged seeds rows n).0
  unfolding insert_rows
  insert_rows-shape b w flow merged [] rows n h a = a
  insert_rows-shape b w flow merged (s ∷ seeds) [] n h a = tt
  insert_rows-shape b w flow merged (s ∷ seeds) (row ∷ rows) n h (r, a) =
      let j = index w flow s in
      let n' = (insert_slot fl rand b flow merged (slot_at fl row j) n).1 in
      (
        row_shape fl rand b w flow merged j row n (index-lt w flow s h) r,
        insert_rows-shape b w flow merged seeds rows n' h a,
      )

  insert_rows-seen :
      (b : fl.F) (w : ℕ) (flow merged : Bytes) (seeds : List ℕ) (rows : List (List (Slot fl.F)))
      (n : ℕ)
      → 0 < w
      → All (RowShape w) rows
      → SeenRows fl w flow merged seeds (insert_rows fl rand b w flow merged seeds rows n).0
  unfolding insert_rows
  insert_rows-seen b w flow merged [] rows n h a = tt
  insert_rows-seen b w flow merged (s ∷ seeds) [] n h a = tt
  insert_rows-seen b w flow merged (s ∷ seeds) (row ∷ rows) n h (r, a) =
      let j = index w flow s in
      let n' = (insert_slot fl rand b flow merged (slot_at fl row j) n).1 in
      (
        row_seen fl rand b w flow merged j row n (index-lt w flow s h) r,
        insert_rows-seen b w flow merged seeds rows n' h a,
      )

  insert_rows-keeps :
      (b : fl.F) (w : ℕ) (flow merged flow' merged' : Bytes) (seeds : List ℕ)
      (rows : List (List (Slot fl.F))) (n : ℕ)
      → 0 < w
      → All (RowShape w) rows
      → SeenRows fl w flow merged seeds rows
      → SeenRows fl w flow merged seeds (insert_rows fl rand b w flow' merged' seeds rows n).0
  unfolding insert_rows
  insert_rows-keeps b w flow merged flow' merged' [] rows n h a k = tt
  insert_rows-keeps b w flow merged flow' merged' (s ∷ seeds) [] n h a k = tt
  insert_rows-keeps b w flow merged flow' merged' (s ∷ seeds) (row ∷ rows) n h (r, a) (k, ks) =
      let j = index w flow' s in
      let n' = (insert_slot fl rand b flow' merged' (slot_at fl row j) n).1 in
      (
        row_keeps fl rand b flow' merged' merged (index w flow s) j row n
            (omega (arith, index-lt w flow' s h, r.0)) k,
        insert_rows-keeps b w flow merged flow' merged' seeds rows n' h a ks,
      )

  insert_rows_again :
      (b : fl.F) (w : ℕ) (flow merged : Bytes) (seeds : List ℕ) (rows : List (List (Slot fl.F)))
      (n : ℕ)
      → fl.eq fl.minus_one fl.minus_one ≡ true
      → SeenRows fl w flow merged seeds rows
      → insert_rows fl rand b w flow merged seeds rows n ≡ (rows, n)
  unfolding insert_rows
  insert_rows_again b w flow merged [] rows n same k = refl
  insert_rows_again b w flow merged (s ∷ seeds) [] n same k = refl
  insert_rows_again b w flow merged (s ∷ seeds) (row ∷ rows) n same (k, ks) =
      let j = index w flow s in
      rw
        (
          insert_slot_again fl rand b flow merged (slot_at fl row j) n same k,
          insert_rows_again b w flow merged seeds rows n same ks,
        )
        (ap (λ (r : List (Slot fl.F)). (r ∷ rows, n)) (set-get_or row j _))

  -- The sketch after a history, the latest observation first.
  abbrev pub after : SuperSpread fl.F × ℕ → List Observation → SuperSpread fl.F × ℕ
  after t [] = t
  after t (o ∷ past) = insert_flow fl rand (after t past) o.flow o.elem o.size

  insert_flow-IsValid :
      (t : SuperSpread fl.F × ℕ) (o : Observation)
      → IsValid t.0
      → IsValid (insert_flow fl rand t o.flow o.elem o.size).0
  unfolding insert_flow
  insert_flow-IsValid (t, n) o v = record {
    wide = v.wide;
    shaped = insert_rows-shape t.b t.w o.flow (o.flow ++ o.elem) t.seeds t.table n v.wide v.shaped;
  }

  abbrev Seen : Observation → SuperSpread fl.F → Type 0
  Seen o t = SeenRows fl t.w o.flow (o.flow ++ o.elem) t.seeds t.table

  pub after-IsValid :
      (t : SuperSpread fl.F × ℕ) (past : List Observation) → IsValid t.0 → IsValid (after t past).0
  after-IsValid t [] v = v
  after-IsValid t (o ∷ past) v = insert_flow-IsValid (after t past) o (after-IsValid t past v)

  after-Seen :
      (t : SuperSpread fl.F × ℕ) (later : List Observation) (o : Observation)
      (past : List Observation)
      → IsValid t.0
      → Seen o (after t (later ++ o ∷ past)).0
  unfolding insert_flow
  after-Seen t [] o past v =
      let u = after-IsValid t past v in
      let (s, n) = after t past in
      insert_rows-seen s.b s.w o.flow (o.flow ++ o.elem) s.seeds s.table n u.wide u.shaped
  after-Seen t (x ∷ later) o past v =
      let u = after-IsValid t (later ++ o ∷ past) v in
      let (s, n) = after t (later ++ o ∷ past) in
      insert_rows-keeps s.b s.w o.flow (o.flow ++ o.elem) x.flow (x.flow ++ x.elem) s.seeds s.table
        n u.wide u.shaped (after-Seen t later o past v)

  insert_flow_again :
      (t : SuperSpread fl.F × ℕ) (o : Observation) (size : ℕ)
      → fl.eq fl.minus_one fl.minus_one ≡ true
      → Seen o t.0
      → insert_flow fl rand t o.flow o.elem size ≡ t
  unfolding insert_flow
  insert_flow_again (t, n) o size same k =
      rw (insert_rows_again t.b t.w o.flow (o.flow ++ o.elem) t.seeds t.table n same k) refl

new_row-shape :
    (fl : Floats) (rand : ℕ → ℕ) (n m size : ℕ) (base : fl.F) (fs width : ℕ)
    → 0 < m
    → RowShape width (new_row fl rand n m size base fs width)
unfolding new_row new_general_hll
new_row-shape fl rand n m size base fs zero h = (refl, tt)
new_row-shape fl rand n m size base fs (suc width) h =
    let (e, a) = new_row-shape fl rand (n + (m + 1)) m size base fs width h in
    (ap suc e, ((h, length-replicate m 0), a))

new_rows-shape :
    (fl : Floats) (rand : ℕ → ℕ) (n m size : ℕ) (base : fl.F) (fs width depth : ℕ)
    → 0 < m
    → All (RowShape width) (new_rows fl rand n m size base fs width depth).0
unfolding new_rows
new_rows-shape fl rand n m size base fs width zero h = tt
new_rows-shape fl rand n m size base fs width (suc depth) h = (
  new_row-shape fl rand n m size base fs width h,
  new_rows-shape fl rand (n + width * (m + 1) + 1) m size base fs width depth h,
)

or_default-pos : (x d : ℕ) → 0 < d → 0 < or_default x d
or_default-pos x d h = ground arith

-- `NewSuperSpread` returns a well-formed sketch, whatever its arguments.
pub new_super_spread-IsValid :
    (fl : Floats) (rand : ℕ → ℕ) (width depth threshold m size : ℕ) (base b : fl.F) (fs : ℕ)
    → IsValid (new_super_spread fl rand width depth threshold m size base b fs)
unfolding new_super_spread
new_super_spread-IsValid fl rand width depth threshold m size base b fs = record {
  wide = or_default-pos width _ (omega arith);
  shaped =
      new_rows-shape fl rand 0 (or_default m hll_default_m) _ _ fs _ _
        (or_default-pos m _ (omega arith));
}

-- In a sketch that `NewSuperSpread` made, an observation of a flow and an element that came before,
-- at any point of the history, changes nothing, and draws no random number. The comparison of floats
-- is taken to find -1 equal to itself.
pub repeated_observation_ignored :
    (fl : Floats) (seed : ℕ → ℕ) (rand : ℕ → fl.F) (width depth threshold m size : ℕ)
    (base b : fl.F) (fs : ℕ) (later : List Observation) (o : Observation) (past : List Observation)
    (bytes : ℕ)
    → fl.eq fl.minus_one fl.minus_one ≡ true
    → let t =
        after fl rand
          (new_super_spread fl seed width depth threshold m size base b fs, 0)
          (later ++ o ∷ past) in
      insert_flow fl rand t o.flow o.elem bytes ≡ t
repeated_observation_ignored fl seed rand width depth threshold m size base b fs later o past bytes
      same =
    let t : SuperSpread fl.F × ℕ =
      (new_super_spread fl seed width depth threshold m size base b fs, 0) in
    insert_flow_again fl rand (after fl rand t (later ++ o ∷ past)) o bytes same (
      after-Seen fl rand t later o past
        (new_super_spread-IsValid fl seed width depth threshold m size base b fs))
