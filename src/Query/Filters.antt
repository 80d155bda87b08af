-- ===== src/Query/Filters.antt =====
-- The query texts: their placeholders and arguments, and the keys of a traced request.
use go2net_spectra.Base.{
  ℕ, suc, ◌+◌, ◌≡◌, refl, ap, sym, subst, ◌∙◌, arith, Bytes, text, bytes_eq, bytes_eq→eq, join,
  List, [], ◌∷◌, ◌++◌, Option, none, some, true, length, length-append, ◌==◌, All, Bool-cases, inl,
  inr, if◌then◌else◌,
}
use go2net_spectra.Query.{
  Arg, str, int32, Clauses, AggregationRequest, HeavyHittersRequest, TraceFlowRequest, ok,
  ok-injective, >>=-is_ok, ◌>>=◌, trace_flow_keys, contains, check_keys, insert_key, sort_keys,
  add_keys, append_aggregation_filters, append_trace_flow_filters, where_text, where_if_any,
  heavy_hitters_sql, aggregate_sql, trace_sql, add_clause, add_time, add_text, add_int32,
  heavy_select, heavy_tail, aggregate_select, aggregate_tail, trace_select,
}

-- The number of `?` in a text.
abbrev pub placeholders : Bytes → ℕ
placeholders [] = 0
placeholders (c ∷ cs) = if c == b'?' then suc (placeholders cs) else placeholders cs

placeholders-append : (xs ys : Bytes) → placeholders (xs ++ ys) ≡ placeholders xs + placeholders ys
placeholders-append [] ys = omega arith
placeholders-append (x ∷ xs) ys = ground (arith, placeholders-append xs ys)

-- Clauses with one placeholder each, and one argument for each.
abbrev OnePlaceholder : Bytes → Type 0
OnePlaceholder c = placeholders c ≡ 1

abbrev Aligned : Clauses → Type 0
Aligned (clauses, args) = All OnePlaceholder clauses × (length clauses ≡ length args)

All-snoc :
    (cs : List Bytes) (c : Bytes)
    → All OnePlaceholder cs
    → OnePlaceholder c
    → All OnePlaceholder (cs ++ c ∷ [])
All-snoc [] c a h = (h, tt)
All-snoc (x ∷ xs) c (p, a) h = (p, All-snoc xs c a h)

add_clause-Aligned :
    (clause : Bytes) (arg : Arg) (c : Clauses)
    → OnePlaceholder clause
    → Aligned c
    → Aligned (add_clause clause arg c)
add_clause-Aligned clause arg (cs, args) h (a, e) = (
  All-snoc cs clause a h,
  omega (arith, length-append {0} cs (clause ∷ []), length-append {0} args (arg ∷ [])),
)

placeholders-join :
    (cs : List Bytes) → All OnePlaceholder cs → placeholders (join cs (text " AND ")) ≡ length cs
unfolding join
placeholders-join [] a = refl
placeholders-join (c ∷ []) (h, a) = h
placeholders-join (c ∷ d ∷ cs) (h, a) = omega (
  arith,
  placeholders-append (c ++ text " AND ") (join (d ∷ cs) (text " AND ")),
  placeholders-append c (text " AND "),
  placeholders-join (d ∷ cs) a,
  h,
)

placeholders-where : (c : Clauses) → Aligned c → placeholders (where_text c.0) ≡ length c.1
placeholders-where c (a, e) = omega (
  arith,
  placeholders-append (text " WHERE ") (join c.0 (text " AND ")),
  placeholders-join c.0 a,
  e,
)

placeholders-where_if_any : (c : Clauses) → Aligned c → placeholders (where_if_any c.0) ≡ length c.1
placeholders-where_if_any ([], args) (a, e) = e
placeholders-where_if_any (x ∷ cs, args) k = placeholders-where (x ∷ cs, args) k

add_time-Aligned : (t : Option ℕ) (c : Clauses) → Aligned c → Aligned (add_time t c)
add_time-Aligned none c k = k
add_time-Aligned (some t) c k = add_clause-Aligned (text "Timestamp <= ?") _ c refl k

add_text-Aligned :
    (clause v : Bytes) (c : Clauses)
    → OnePlaceholder clause
    → Aligned c
    → Aligned (add_text clause v c)
add_text-Aligned clause [] c h k = k
add_text-Aligned clause (x ∷ xs) c h k = add_clause-Aligned clause _ c h k

add_int32-Aligned :
    (clause : Bytes) (v : Option ℕ) (c : Clauses)
    → OnePlaceholder clause
    → Aligned c
    → Aligned (add_int32 clause v c)
add_int32-Aligned clause none c h k = k
add_int32-Aligned clause (some v) c h k = add_clause-Aligned clause _ c h k

-- The heavy-hitters query has as many placeholders as arguments, whatever is asked.
pub heavy_hitters_sql_bound :
    (req : HeavyHittersRequest)
    → placeholders (heavy_hitters_sql req).0 ≡ length (heavy_hitters_sql req).1
unfolding heavy_hitters_sql
heavy_hitters_sql_bound req =
    let c =
      add_time req.end_time
        (text "TaskName = ?" ∷ text "Type = ?" ∷ [], str req.task_name ∷ int32 req.kind ∷ []) in
    omega (
      arith,
      placeholders-append (heavy_select ++ where_text c.0) heavy_tail,
      placeholders-append heavy_select (where_text c.0),
      placeholders-where c (add_time-Aligned req.end_time _ ((refl, (refl, tt)), refl)),
      length-append {0} c.1 (int32 req.limit ∷ []),
    )

-- The aggregation query has as many placeholders as arguments, for every set of filters.
pub aggregate_sql_bound :
    (req : AggregationRequest) → placeholders (aggregate_sql req).0 ≡ length (aggregate_sql req).1
unfolding aggregate_sql append_aggregation_filters
aggregate_sql_bound req =
    let c = add_time req.end_time (append_aggregation_filters ([], []) req) in
    let k : Aligned c = add_time-Aligned req.end_time _ (
      add_int32-Aligned _ req.protocol _ refl (
        add_int32-Aligned _ req.dst_port _ refl (
          add_int32-Aligned _ req.src_port _ refl (
            add_text-Aligned _ req.dst_ip _ refl (
              add_text-Aligned _ req.src_ip _ refl
                (add_text-Aligned _ req.task_name _ refl (tt, refl))))))) in
    omega (
      arith,
      placeholders-append (aggregate_select ++ where_if_any c.0) aggregate_tail,
      placeholders-append aggregate_select (where_if_any c.0),
      placeholders-where_if_any c k,
    )

-- The keys of a traced flow.
abbrev pub IsTraceKey : Bytes → Type 0
IsTraceKey k = contains trace_flow_keys k ≡ true

contains-placeholders :
    (xs : List Bytes) (k : Bytes)
    → All (λ x. placeholders x ≡ 0) xs
    → contains xs k ≡ true
    → placeholders k ≡ 0
unfolding contains
contains-placeholders [] k a h = cc h
contains-placeholders (x ∷ xs) k (z, a) h = elim (Bool-cases (bytes_eq x k)) [
  | inl same ↦ ap placeholders (sym (bytes_eq→eq x k same)) ∙ z
  | inr other ↦ contains-placeholders xs k a (rw other at h)
]

IsTraceKey-placeholders : (k : Bytes) → IsTraceKey k → OnePlaceholder (k ++ text " = ?")
IsTraceKey-placeholders k h = omega (
  arith,
  placeholders-append k (text " = ?"),
  contains-placeholders trace_flow_keys k (refl, (refl, (refl, (refl, (refl, tt))))) h,
)

insert_key-All :
    (k : Bytes) (ks : List Bytes)
    → IsTraceKey k
    → All IsTraceKey ks
    → All IsTraceKey (insert_key k ks)
unfolding insert_key
insert_key-All k [] h a = (h, tt)
insert_key-All k (x ∷ xs) h (p, a) = ground (arith, insert_key-All k xs h a)

sort_keys-All : (ks : List Bytes) → All IsTraceKey ks → All IsTraceKey (sort_keys ks)
unfolding sort_keys
sort_keys-All [] a = tt
sort_keys-All (k ∷ ks) (h, a) = insert_key-All k (sort_keys ks) h (sort_keys-All ks a)

add_keys-Aligned :
    (m : List (Bytes × Bytes)) (ks : List Bytes) (c : Clauses)
    → All IsTraceKey ks
    → Aligned c
    → Aligned (add_keys m ks c)
unfolding add_keys
add_keys-Aligned m [] c a k = k
add_keys-Aligned m (x ∷ ks) c (h, a) k =
    add_keys-Aligned m ks _ a
      (add_clause-Aligned (x ++ text " = ?") _ c (IsTraceKey-placeholders x h) k)

abbrev pub keys_of : List (Bytes × Bytes) → List Bytes
keys_of [] = []
keys_of ((k, v) ∷ m) = k ∷ keys_of m

check_keys-ok :
    (m : List (Bytes × Bytes)) (ks : List Bytes)
    → check_keys m ≡ ok ks
    → (ks ≡ keys_of m) × All IsTraceKey (keys_of m)
unfolding check_keys
check_keys-ok [] ks e = (sym (ok-injective e), tt)
check_keys-ok ((k, v) ∷ m) ks e = elim (Bool-cases (contains trace_flow_keys k)) [
  | inr unknown ↦ absurd (ground (arith, e, unknown))
  | inl known ↦
      let (rest, there, done) = >>=-is_ok (check_keys m) _ (rw known at e) in
      let (same, all) = check_keys-ok m rest there in
      (sym (ok-injective done) ∙ ap (◌∷◌ k) same, (known, all))
]

abbrev HasOnePlaceholderEach : Bytes × List Arg → Type 0
HasOnePlaceholderEach (sql, args) = placeholders sql ≡ length args

trace_text_bound :
    (c : Clauses) → Aligned c → HasOnePlaceholderEach (trace_select ++ where_if_any c.0, c.1)
trace_text_bound c k =
    omega
      (arith, placeholders-append trace_select (where_if_any c.0), placeholders-where_if_any c k)

-- A trace query that is accepted has only the five permitted columns among its flow keys, and as many
-- placeholders as arguments.
pub trace_sql_bound :
    (req : TraceFlowRequest) (sql : Bytes) (args : List Arg)
    → trace_sql req ≡ ok (sql, args)
    → All IsTraceKey (keys_of req.flow_keys) × (placeholders sql ≡ length args)
unfolding trace_sql append_trace_flow_filters
trace_sql_bound req sql args e =
    let (c, filtered, built) = >>=-is_ok (check_keys req.flow_keys >>= _) _ e in
    let (ks, checked, added) = >>=-is_ok (check_keys req.flow_keys) _ filtered in
    let (same, known) = check_keys-ok req.flow_keys ks checked in
    let k : Aligned c = subst Aligned (ok-injective added) (
      add_keys-Aligned req.flow_keys (sort_keys ks) _
        (sort_keys-All ks (subst (All IsTraceKey) (sym same) known)) ((refl, tt), refl)) in
    (
      known,
      subst HasOnePlaceholderEach (ok-injective built)
          (trace_text_bound (add_time req.end_time c) (add_time-Aligned req.end_time c k)),
    )
