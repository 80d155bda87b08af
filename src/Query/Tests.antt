-- ===== src/Query/Tests.antt =====
-- Queries on small requests.
use go2net_spectra.Base.{
  ℕ, ◌≡◌, ◌↔◌, refl, Bytes, bytes_eq, text, List, [], ◌∷◌, ◌++◌, map, Option, none, some, All,
  length,
}
use go2net_spectra.Base.Dict.{lookup}
use go2net_spectra.Query.{
  Arg, str, TraceFlowRequest, HeavyHittersRequest, AggregationRequest, HeavyHitter, ok, trace_sql,
  append_trace_flow_filters, check_keys, contains, sort_keys, insert_key, bytes_lt, add_keys,
  trace_select, where_text, heavy_hitters_sql, query_heavy_hitters, DriverRows, next_row,
  broken_off,
}
use go2net_spectra.Query.Filters.{placeholders, IsTraceKey, keys_of, trace_sql_bound}
use go2net_spectra.Query.Rows.{heavy_row, FitsInt64, Delivers, query_heavy_hitters_lem}

abbrev trace : TraceFlowRequest
trace = record {
  task_name = text "t";
  flow_keys = (text "SrcPort", text "80") ∷ (text "DstIP", text "::1") ∷ [];
  end_time = none;
}

abbrev trace_text : Bytes
trace_text =
    trace_select ++ where_text (text "TaskName = ?" ∷ text "DstIP = ?" ∷ text "SrcPort = ?" ∷ [])

abbrev trace_args : List Arg
trace_args = str (text "t") ∷ str (text "::1") ∷ str (text "80") ∷ []

trace_sql_bound_example :
    All IsTraceKey (keys_of trace.flow_keys) × (placeholders trace_text ≡ length trace_args)
unfolding trace_sql append_trace_flow_filters check_keys contains bytes_eq sort_keys insert_key
    bytes_lt add_keys lookup
trace_sql_bound_example = trace_sql_bound trace trace_text trace_args refl

abbrev heavy : HeavyHittersRequest
heavy = record { task_name = text "t"; kind = 0; end_time = some 7; limit = 10 }

abbrev aggregation : AggregationRequest
aggregation = record {
  end_time = none;
  task_name = text "t";
  src_ip = [];
  dst_ip = text "::1";
  src_port = some 80;
  dst_port = none;
  protocol = none;
}

abbrev hitters : List HeavyHitter
hitters = record { flow = text "f"; value = 3 } ∷ []

-- A result that breaks off after its first row.
abbrev database : Bytes × List Arg → Option (DriverRows (Bytes × ℕ))
database sql = some (next_row (text "f", 3) broken_off)

query_heavy_hitters_example : (query_heavy_hitters database heavy ≡ ok hitters) ↔ (
    ((rows : DriverRows (Bytes × ℕ)) × (database (heavy_hitters_sql heavy) ≡ some rows)
      × Delivers rows (map heavy_row hitters))
    × All FitsInt64 hitters)
query_heavy_hitters_example = query_heavy_hitters_lem database heavy hitters
