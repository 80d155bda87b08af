-- ===== src/CountMin/Majority.antt =====
-- The count half of a bucket is a majority vote (Boyer and Moore): a flow loses at most one unit for
-- each insertion of another flow into its bucket.
use go2net_spectra.Base.{
  ℕ, zero, suc, ◌+◌, ◌/◌, ◌^◌, ◌≤◌, ◌<◌, ◌≡◌, refl, ap, arith, Bytes, bytes_eq, bytes_eq→eq,
  bytes_eq_refl, subst, copy-same_length, length, List, [], ◌∷◌, set, replicate, All, All-get_or,
  sym, ◌∙◌, true, false, if◌then◌else◌, get_or-set_self, get_or-set_ne, ==_iff, ◌==◌, Bool-cases,
  inl, inr,
}
use go2net_spectra.CountMin.{
  Cell, Bucket, CountMin, empty_bucket, new_count_min, update_count, update_bucket, index,
  bucket_at, insert_rows, insert_flow, query_rows, query, match_max,
}
use go2net_spectra.CountMin.Shape.{BucketShape, RowShape, IsValid, index-lt, new_count_min-IsValid}
use go2net_spectra.CountMin.Upper.{query_words}
use go2net_spectra.CountMin.History.{Observation, after, Fits, occurrences, rivals, after-IsValid}

-- A cell that has seen `hits` insertions of `f` and `others` of other flows.
abbrev pub Votes : Bytes → ℕ → ℕ → Cell → Type 0
Votes f hits others c =
    (c.value ≤ hits + others)
    × (if bytes_eq c.fp f then hits ≤ c.value + others else hits + c.value ≤ others)

-- An insertion of the flow itself gains it a vote.
update_count-hit :
    (f : Bytes) (hits others : ℕ) (c : Cell)
    → length c.fp ≡ length f
    → suc (hits + others) < 2 ^ 32
    → Votes f hits others c
    → Votes f (suc hits) others (update_count f c)
unfolding update_count
update_count-hit f hits others c e lt v = ground (arith, copy-same_length c.fp f, bytes_eq_refl f)

-- An insertion of another flow costs it one at most.
update_count-other :
    (f g : Bytes) (hits others : ℕ) (c : Cell)
    → length c.fp ≡ length g
    → suc (hits + others) < 2 ^ 32
    → bytes_eq g f ≡ false
    → Votes f hits others c
    → Votes f hits (suc others) (update_count g c)
unfolding update_count
update_count-other f g hits others c e lt ne v =
    ground (arith, copy-same_length c.fp g, bytes_eq→eq c.fp g, bytes_eq_refl g)

occurrences-rivals-le :
    (w s : ℕ) (f : Bytes) (past : List Observation)
    → occurrences f past + rivals w s f past ≤ length past
occurrences-rivals-le w s f [] = omega arith
occurrences-rivals-le w s f (o ∷ past) = ground (arith, occurrences-rivals-le w s f past)

abbrev pub RowVotes : ℕ → Bytes → List Observation → ℕ → List Bucket → Type 0
RowVotes w f past s row =
    Votes f (occurrences f past) (rivals w s f past) (bucket_at row (index w f s)).count

-- One row under one observation.
module _ (fs w s : ℕ) (f : Bytes) (past : List Observation) (o : Observation) (row : List Bucket)
    (hw : 0 < w) (h : Fits fs o) (sh : RowShape fs w row) (short : suc (length past) < 2 ^ 32)
    (v : RowVotes w f past s row) where
  abbrev written : List Bucket
  written = let j = index w o.flow s in set row j (update_bucket o.flow o.size (bucket_at row j))

  in_row : (g : Bytes) → index w g s < length row
  in_row g = omega (arith, index-lt w g s hw, sh.0)

  shape : BucketShape fs (bucket_at row (index w f s))
  shape = All-get_or (BucketShape fs) row (index w f s) (empty_bucket 0) sh.1 (in_row f)

  -- The cell that an observation in the flow's own column leaves there.
  reached :
      index w o.flow s ≡ index w f s
      → (bucket_at written (index w f s)).count
        ≡ update_count o.flow (bucket_at row (index w f s)).count
  unfolding update_bucket
  reached same = rw (← same) (
      ap (λ (b : Bucket). b.count)
        (get_or-set_self row (index w o.flow s) _ (empty_bucket 0) (in_row o.flow)))

  row_hit : bytes_eq o.flow f ≡ true → RowVotes w f (o ∷ past) s written
  row_hit e =
      let same : o.flow ≡ f = bytes_eq→eq o.flow f e in
      let vote =
        update_count-hit f (occurrences f past) (rivals w s f past)
          (bucket_at row (index w f s)).count (shape.0.0 ∙ sym h.0 ∙ ap length same)
          (omega (arith, occurrences-rivals-le w s f past)) v in
      let at_f =
        reached (ap (λ g. index w g s) same)
        ∙ ap (λ g. update_count g (bucket_at row (index w f s)).count) same in
      rw e (subst (Votes f (suc (occurrences f past)) (rivals w s f past)) (sym at_f) vote)

  row_rival :
      bytes_eq o.flow f ≡ false → index w o.flow s ≡ index w f s → RowVotes w f (o ∷ past) s written
  row_rival e same =
      let vote =
        update_count-other f o.flow (occurrences f past) (rivals w s f past)
          (bucket_at row (index w f s)).count (shape.0.0 ∙ sym h.0)
          (omega (arith, occurrences-rivals-le w s f past)) e v in
      rw (e, (==_iff (index w o.flow s) (index w f s)).1 same)
        (subst (Votes f (occurrences f past) (suc (rivals w s f past))) (sym (reached same)) vote)

  row_away :
      bytes_eq o.flow f ≡ false
      → (index w o.flow s == index w f s) ≡ false
      → RowVotes w f (o ∷ past) s written
  row_away e apart =
      let still =
        get_or-set_ne row (index w o.flow s) (index w f s)
          (update_bucket o.flow o.size (bucket_at row (index w o.flow s))) (empty_bucket 0)
          (λ same. cc (apart, (==_iff (index w o.flow s) (index w f s)).1 same)) in
      rw (e, apart)
        (subst (λ b. Votes f (occurrences f past) (rivals w s f past) b.count) (sym still) v)

  row_votes : RowVotes w f (o ∷ past) s written
  row_votes = elim (Bool-cases (bytes_eq o.flow f)) [
    | inl e ↦ row_hit e
    | inr e ↦ elim (Bool-cases (index w o.flow s == index w f s)) [
      | inl same ↦ row_rival e ((==_iff _ _).0 same)
      | inr apart ↦ row_away e apart
    ]
  ]

abbrev pub AllVotes : ℕ → Bytes → List Observation → List ℕ → List (List Bucket) → Type 0
AllVotes w f past [] rows = Unit
AllVotes w f past (s ∷ seeds) [] = ⊥
AllVotes w f past (s ∷ seeds) (row ∷ rows) = RowVotes w f past s row × AllVotes w f past seeds rows

insert_rows-Votes :
    (fs w : ℕ) (f : Bytes) (past : List Observation) (o : Observation) (seeds : List ℕ)
    (rows : List (List Bucket))
    → 0 < w
    → Fits fs o
    → All (RowShape fs w) rows
    → suc (length past) < 2 ^ 32
    → AllVotes w f past seeds rows
    → AllVotes w f (o ∷ past) seeds (insert_rows w o.flow o.size seeds rows)
unfolding insert_rows
insert_rows-Votes fs w f past o [] rows hw h sh short v = tt
insert_rows-Votes fs w f past o (s ∷ seeds) [] hw h sh short v = absurd v
insert_rows-Votes fs w f past o (s ∷ seeds) (row ∷ rows) hw h (r, sh) short (v, vs) = (
  row_votes fs w s f past o row hw h r short v,
  insert_rows-Votes fs w f past o seeds rows hw h sh short vs,
)

bucket_at-replicate : (n j : ℕ) (b : Bucket) → j < n → bucket_at (replicate n b) j ≡ b
bucket_at-replicate zero j b h = absurd (omega arith)
bucket_at-replicate (suc n) zero b h = refl
bucket_at-replicate (suc n) (suc j) b h = bucket_at-replicate n j b (omega arith)

empty_rows-Votes :
    (fs w n : ℕ) (f : Bytes) (seeds : List ℕ)
    → 0 < w
    → length seeds ≡ n
    → AllVotes w f [] seeds (replicate n (replicate w (empty_bucket fs)))
unfolding empty_bucket
empty_rows-Votes fs w n f [] hw e = tt
empty_rows-Votes fs w zero f (s ∷ seeds) hw e = absurd (omega arith)
empty_rows-Votes fs w (suc n) f (s ∷ seeds) hw e =
    let same = bucket_at-replicate w (index w f s) (empty_bucket fs) (index-lt w f s hw) in
    (
      subst (λ b. Votes f 0 0 b.count) (sym same) (ground arith),
      empty_rows-Votes fs w n f seeds hw (omega arith),
    )

-- Every row of the table votes after any history.
pub after-Votes :
    (fs : ℕ) (t : CountMin) (f : Bytes) (past : List Observation)
    → IsValid fs t
    → AllVotes t.w f [] t.seed t.table
    → All (Fits fs) past
    → length past < 2 ^ 32
    → AllVotes (after t past).w f past (after t past).seed (after t past).table
unfolding insert_flow
after-Votes fs t f [] v k a short = k
after-Votes fs t f (o ∷ past) v k (h, a) short =
    let u = after-IsValid fs t past a v in
    insert_rows-Votes fs (after t past).w f past o (after t past).seed (after t past).table u.wide h
      u.shaped short (after-Votes fs t f past v k a (omega arith))

pub new_count_min-Votes :
    (rand : ℕ → ℕ) (width depth st ct fs : ℕ) (f : Bytes)
    → let t = new_count_min rand width depth st ct fs in AllVotes t.w f [] t.seed t.table
unfolding new_count_min
new_count_min-Votes rand width depth st ct fs f =
    let v = new_count_min-IsValid rand width depth st ct fs in
    empty_rows-Votes fs _ _ f _ v.wide v.seeds

query_rows_mono :
    (w : ℕ) (flow : Bytes) (seeds : List ℕ) (rows : List (List Bucket)) (sz ct : ℕ)
    → ct ≤ (query_rows w flow seeds rows sz ct).1
unfolding query_rows
query_rows_mono w flow [] rows sz ct = omega arith
query_rows_mono w flow (s ∷ seeds) [] sz ct = omega arith
query_rows_mono w flow (s ∷ seeds) (row ∷ rows) sz ct =
    let b = bucket_at row (index w flow s) in
    ground (
      arith,
      query_rows_mono w flow seeds rows (match_max flow b.size sz) (match_max flow b.count ct),
    )

query_rows-ge :
    (w : ℕ) (flow : Bytes) (past : List Observation) (seeds : List ℕ) (rows : List (List Bucket))
    (sz ct : ℕ)
    → AllVotes w flow past seeds rows
    → All
        (λ s. occurrences flow past ≤ (query_rows w flow seeds rows sz ct).1 + rivals w s flow past)
        seeds
unfolding query_rows
query_rows-ge w flow past [] rows sz ct v = tt
query_rows-ge w flow past (s ∷ seeds) [] sz ct v = absurd v
query_rows-ge w flow past (s ∷ seeds) (row ∷ rows) sz ct (v, vs) =
    let b = bucket_at row (index w flow s) in
    let sz' = match_max flow b.size sz in
    let ct' = match_max flow b.count ct in
    (
      ground (arith, query_rows_mono w flow seeds rows sz' ct'),
      query_rows-ge w flow past seeds rows sz' ct' vs,
    )

-- A new sketch, after fewer than 2 ^ 32 insertions of keys of its length: in every row, the count
-- word of `Query` falls short of the number of the flow's insertions by at most the number of
-- insertions of other flows into its bucket of that row.
pub query_lower_bound :
    (rand : ℕ → ℕ) (width depth st ct fs : ℕ) (past : List Observation) (flow : Bytes)
    → All (Fits fs) past
    → length past < 2 ^ 32
    → let t = after (new_count_min rand width depth st ct fs) past in
      All (λ s. occurrences flow past ≤ query t flow / 2 ^ 32 + rivals t.w s flow past) t.seed
query_lower_bound rand width depth st ct fs past flow a short =
    let t = new_count_min rand width depth st ct fs in
    let start = new_count_min-IsValid rand width depth st ct fs in
    let u = after t past in
    let votes =
      after-Votes fs t flow past start (new_count_min-Votes rand width depth st ct fs flow) a
        short in
    let words = query_words fs u flow (after-IsValid fs t past a start) in
    rw words.0 (query_rows-ge u.w flow past u.seed u.table 0 0 votes)
