-- ===== src/Query.antt =====
-- The ClickHouse querier: internal/query/querier.go. A query's text is a list of bytes, and its
-- arguments are values; the database is a parameter of the functions that call it, which returns an
-- error, or the rows of a result, which may break off.
pub mod Filters
pub mod Rows
mod Tests
use go2net_spectra.Base.{
  ℕ, zero, suc, ◌+◌, ◌-◌, ◌^◌, ◌<◌, Bytes, text, bytes_eq, join, List, [], ◌∷◌, ◌++◌, map, Option,
  none, some, Bool, true, false, ltb, ◌||◌, ◌≡◌, refl, ap, if◌then◌else◌,
}
use go2net_spectra.Base.Dict.{lookup}

-- The arguments of a query: a text, an `int32` pattern, or a time.
pub data Arg : Type 0 where
  str : Bytes → Arg
  int32 : ℕ → Arg
  time : ℕ → Arg

pub record AggregationRequest : Type 0 where
  pub end_time : Option ℕ
  pub task_name : Bytes
  pub src_ip : Bytes
  pub dst_ip : Bytes
  pub src_port : Option ℕ
  pub dst_port : Option ℕ
  pub protocol : Option ℕ

pub record TaskSummary : Type 0 where
  pub task_name : Bytes
  pub total_bytes : ℕ
  pub total_packets : ℕ
  pub flow_count : ℕ

-- `FlowKeys` is a Go map: the entries in the order of one traversal.
pub record TraceFlowRequest : Type 0 where
  pub task_name : Bytes
  pub flow_keys : List (Bytes × Bytes)
  pub end_time : Option ℕ

pub record FlowLifecycle : Type 0 where
  pub first_seen : ℕ
  pub last_seen : ℕ
  pub total_packets : ℕ
  pub total_bytes : ℕ

pub record HeavyHittersRequest : Type 0 where
  pub task_name : Bytes
  pub kind : ℕ
  pub end_time : Option ℕ
  pub limit : ℕ

pub record HeavyHitter : Type 0 where
  pub flow : Bytes
  pub value : ℕ

pub data QueryError : Type 0 where
  execute_failed scan_failed : QueryError
  exceeds_int64 : Bytes → ℕ → QueryError
  unsupported_flow_key : Bytes → QueryError

pub data Result {ℓ} (A : Type ℓ) : Type ℓ where
  ok : A → Result A
  err : QueryError → Result A

infixl 5 ◌>>=◌
abbrev pub ◌>>=◌ {ℓ κ} : {A : Type ℓ} {B : Type κ} → Result A → (A → Result B) → Result B
ok a >>= f = f a
err e >>= f = err e

abbrev value_or {ℓ} : {A : Type ℓ} → A → Result A → A
value_or d (ok a) = a
value_or d (err e) = d

pub ok-injective {ℓ} : {A : Type ℓ} {a b : A} → ok a ≡ ok b → a ≡ b
ok-injective {a} e = ap (value_or a) e

-- A chain that succeeds has a first step that succeeds.
pub >>=-is_ok {ℓ κ} :
    {A : Type ℓ} {B : Type κ} {b : B} (r : Result A) (next : A → Result B)
    → (r >>= next) ≡ ok b
    → (a : A) × (r ≡ ok a) × (next a ≡ ok b)
>>=-is_ok (err e) next h = cc
>>=-is_ok (ok a) next h = (a, refl, h)

-- `uint64ToInt64`
unfoldable pub uint64_to_int64 : ℕ → Bytes → Result ℕ
uint64_to_int64 value field =
    if ltb (2 ^ 63 - 1) value then err (exceeds_int64 field value) else ok value

-- Where clauses with their arguments.
abbrev pub Clauses : Type 0
Clauses = List Bytes × List Arg

abbrev pub add_clause : Bytes → Arg → Clauses → Clauses
add_clause clause arg (clauses, args) = (clauses ++ clause ∷ [], args ++ arg ∷ [])

abbrev pub add_text : Bytes → Bytes → Clauses → Clauses
add_text clause [] c = c
add_text clause (x ∷ xs) c = add_clause clause (str (x ∷ xs)) c

abbrev pub add_int32 : Bytes → Option ℕ → Clauses → Clauses
add_int32 clause none c = c
add_int32 clause (some v) c = add_clause clause (int32 v) c

abbrev pub add_time : Option ℕ → Clauses → Clauses
add_time none c = c
add_time (some t) c = add_clause (text "Timestamp <= ?") (time t) c

-- `appendAggregationFilters`
unfoldable pub append_aggregation_filters : Clauses → AggregationRequest → Clauses
append_aggregation_filters c req = add_int32 (text "Protocol = ?") req.protocol (
    add_int32 (text "DstPort = ?") req.dst_port (
      add_int32 (text "SrcPort = ?") req.src_port (
        add_text (text "DstIP = ?") req.dst_ip (
          add_text (text "SrcIP = ?") req.src_ip
            (add_text (text "TaskName = ?") req.task_name c)))))

abbrev pub trace_flow_keys : List Bytes
trace_flow_keys =
    text "DstIP" ∷ text "DstPort" ∷ text "Protocol" ∷ text "SrcIP" ∷ text "SrcPort" ∷ []

unfoldable pub contains : List Bytes → Bytes → Bool
contains [] k = false
contains (x ∷ xs) k = bytes_eq x k || contains xs k

-- The first loop of `appendTraceFlowFilters`.
unfoldable pub check_keys : List (Bytes × Bytes) → Result (List Bytes)
unfolding contains
check_keys [] = ok []
check_keys ((k, v) ∷ m) =
    if contains trace_flow_keys k
    then (check_keys m >>= λ rest. ok (k ∷ rest))
    else err (unsupported_flow_key k)

-- The order of Go strings, and `slices.Sort`.
unfoldable pub bytes_lt : Bytes → Bytes → Bool
bytes_lt [] [] = false
bytes_lt [] (y ∷ ys) = true
bytes_lt (x ∷ xs) [] = false
bytes_lt (x ∷ xs) (y ∷ ys) = if ltb x y then true else if ltb y x then false else bytes_lt xs ys

unfoldable pub insert_key : Bytes → List Bytes → List Bytes
unfolding bytes_lt
insert_key k [] = k ∷ []
insert_key k (x ∷ xs) = if bytes_lt x k then x ∷ insert_key k xs else k ∷ x ∷ xs

unfoldable pub sort_keys : List Bytes → List Bytes
unfolding insert_key
sort_keys [] = []
sort_keys (x ∷ xs) = insert_key x (sort_keys xs)

-- `flowKeys[key]`; a missing key reads as the empty text.
abbrev pub value_at : Bytes → List (Bytes × Bytes) → Bytes
value_at k m = elim (lookup k m) [ none ↦ [] | some v ↦ v ]

-- The second loop.
unfoldable pub add_keys : List (Bytes × Bytes) → List Bytes → Clauses → Clauses
add_keys m [] c = c
add_keys m (k ∷ ks) c = add_keys m ks (add_clause (k ++ text " = ?") (str (value_at k m)) c)

unfoldable pub append_trace_flow_filters : Clauses → List (Bytes × Bytes) → Result Clauses
unfolding check_keys sort_keys add_keys
append_trace_flow_filters c m = check_keys m >>= λ keys. ok (add_keys m (sort_keys keys) c)

-- `" WHERE " + strings.Join(whereClauses, " AND ")`
abbrev pub where_text : List Bytes → Bytes
where_text clauses = text " WHERE " ++ join clauses (text " AND ")

abbrev pub where_if_any : List Bytes → Bytes
where_if_any [] = []
where_if_any (c ∷ cs) = where_text (c ∷ cs)

-- The fixed parts of the queries' text, with the white space of the source written as one blank.
abbrev pub heavy_select : Bytes
heavy_select =
    text
      "SELECT Flow, LatestValue FROM ( SELECT Flow, argMax(Value, Timestamp) AS LatestValue FROM heavy_hitters"

abbrev pub heavy_tail : Bytes
heavy_tail = text " GROUP BY Flow ) ORDER BY LatestValue DESC LIMIT ?"

abbrev pub aggregate_select : Bytes
aggregate_select =
    text
      "SELECT TaskName, SUM(LatestByteCount) AS TotalBytes, SUM(LatestPacketCount) AS TotalPackets, COUNT(*) AS FlowCount FROM ( SELECT TaskName, argMax(ByteCount, Timestamp) AS LatestByteCount, argMax(PacketCount, Timestamp) AS LatestPacketCount FROM flow_metrics"

abbrev pub aggregate_tail : Bytes
aggregate_tail =
    text " GROUP BY TaskName, SrcIP, DstIP, SrcPort, DstPort, Protocol ) GROUP BY TaskName"

abbrev pub trace_select : Bytes
trace_select =
    text
      "SELECT min(StartTime) AS FirstSeen, max(EndTime) AS LastSeen, max(PacketCount) AS TotalPackets, max(ByteCount) AS TotalBytes FROM flow_metrics"

-- The text and the arguments of the three queries.
unfoldable pub heavy_hitters_sql : HeavyHittersRequest → Bytes × List Arg
heavy_hitters_sql req =
    let c =
      add_time req.end_time
        (text "TaskName = ?" ∷ text "Type = ?" ∷ [], str req.task_name ∷ int32 req.kind ∷ []) in
    (heavy_select ++ where_text c.0 ++ heavy_tail, c.1 ++ int32 req.limit ∷ [])

unfoldable pub aggregate_sql : AggregationRequest → Bytes × List Arg
unfolding append_aggregation_filters
aggregate_sql req =
    let c = add_time req.end_time (append_aggregation_filters ([], []) req) in
    (aggregate_select ++ where_if_any c.0 ++ aggregate_tail, c.1)

unfoldable pub trace_sql : TraceFlowRequest → Result (Bytes × List Arg)
unfolding append_trace_flow_filters
trace_sql req =
    append_trace_flow_filters (text "TaskName = ?" ∷ [], str req.task_name ∷ []) req.flow_keys
    >>= λ c. let c' = add_time req.end_time c in ok (trace_select ++ where_if_any c'.0, c'.1)

-- The driver's rows, as `Next` and `Scan` show them. After `end_of_rows` and after `broken_off` `Next`
-- is false: only `Err`, which the querier does not read, tells an error of the connection from the
-- end of the result. `unreadable` is a row that `Scan` refuses.
pub data DriverRows (R : Type 0) : Type 0 where
  end_of_rows broken_off unreadable : DriverRows R
  next_row : R → DriverRows R → DriverRows R

unfoldable pub heavy_rows : DriverRows (Bytes × ℕ) → Result (List HeavyHitter)
unfolding uint64_to_int64
heavy_rows end_of_rows = ok []
heavy_rows broken_off = ok []
heavy_rows unreadable = err scan_failed
heavy_rows (next_row (flow, value) rows) = do
  v ← uint64_to_int64 value (text "heavy_hitter.value")
  rest ← heavy_rows rows
  ok (record { flow = flow; value = v } ∷ rest)

unfoldable pub summary_row : Bytes × ℕ × ℕ × ℕ → Result TaskSummary
unfolding uint64_to_int64
summary_row (name, total_bytes, total_packets, flow_count) = do
  b ← uint64_to_int64 total_bytes (text "aggregation.total_bytes")
  p ← uint64_to_int64 total_packets (text "aggregation.total_packets")
  n ← uint64_to_int64 flow_count (text "aggregation.flow_count")
  ok (record { task_name = name; total_bytes = b; total_packets = p; flow_count = n })

unfoldable pub summary_rows : DriverRows (Bytes × ℕ × ℕ × ℕ) → Result (List TaskSummary)
unfolding summary_row
summary_rows end_of_rows = ok []
summary_rows broken_off = ok []
summary_rows unreadable = err scan_failed
summary_rows (next_row row rows) = do s ← summary_row row; rest ← summary_rows rows; ok (s ∷ rest)

abbrev pub or_execute {ℓ} : {A : Type ℓ} → Option A → Result A
or_execute none = err execute_failed
or_execute (some rows) = ok rows

-- `QueryHeavyHitters`, `AggregateFlows` and `TraceFlow`, over the connection's answers.
unfoldable pub query_heavy_hitters :
    (Bytes × List Arg → Option (DriverRows (Bytes × ℕ)))
    → HeavyHittersRequest
    → Result (List HeavyHitter)
unfolding heavy_hitters_sql heavy_rows
query_heavy_hitters db req = do rows ← or_execute (db (heavy_hitters_sql req)); heavy_rows rows

unfoldable pub aggregate_flows :
    (Bytes × List Arg → Option (DriverRows (Bytes × ℕ × ℕ × ℕ)))
    → AggregationRequest
    → Result (List TaskSummary)
unfolding aggregate_sql summary_rows
aggregate_flows db req = do rows ← or_execute (db (aggregate_sql req)); summary_rows rows

unfoldable pub trace_flow :
    (Bytes × List Arg → Option (ℕ × ℕ × ℕ × ℕ)) → TraceFlowRequest → Result FlowLifecycle
unfolding trace_sql uint64_to_int64
trace_flow db req = trace_sql req >>= λ sql. elim (db sql) [
  | none ↦ err scan_failed
  | some (first, last, packets, bytes) ↦
      uint64_to_int64 packets (text "trace.total_packets") >>= λ p.
      uint64_to_int64 bytes (text "trace.total_bytes") >>= λ b.
      ok (record { first_seen = first; last_seen = last; total_packets = p; total_bytes = b })
]
