-- ===== src/Api.antt =====
-- The query service: internal/api/grpc_server.go, with the part of internal/config/config.go that it
-- reads. Opening a ClickHouse connection is a parameter; what an open connection answers is a record
-- of functions. A time is its `UnixNano` pattern, and an unset optional field of Thrift is `none`.
pub mod Handlers
pub mod Grafana
mod Tests
use go2net_spectra.Base.{
  ℕ, Bytes, text, bytes_eq, List, [], ◌∷◌, ◌++◌, map, Option, none, some, Bool, true, false, not,
  ◌||◌, if◌then◌else◌,
}
use go2net_spectra.Query.{
  Arg, AggregationRequest, TaskSummary, TraceFlowRequest, FlowLifecycle, HeavyHittersRequest,
  HeavyHitter, QueryError, Result, DriverRows, ok, err, query_heavy_hitters, aggregate_flows,
  trace_flow, contains,
}

-- `config.WriterDef`, less the fields that the service does not read.
pub record WriterDef (Config : Type 0) : Type 0 where
  pub kind : Bytes
  pub enabled : Bool
  pub click_house : Config

-- `config.AggregatorConfig`: the types, and for each of the two aggregators its tasks' names and its
-- writers.
pub record Aggregator (Config : Type 0) : Type 0 where
  pub types : List Bytes
  pub exact_tasks : List Bytes
  pub exact_writers : List (WriterDef Config)
  pub sketch_tasks : List Bytes
  pub sketch_writers : List (WriterDef Config)

-- What a connection answers to the three queries.
pub record Connection : Type 0 where
  pub heavy : Bytes × List Arg → Option (DriverRows (Bytes × ℕ))
  pub summaries : Bytes × List Arg → Option (DriverRows (Bytes × ℕ × ℕ × ℕ))
  pub lifecycle : Bytes × List Arg → Option (ℕ × ℕ × ℕ × ℕ)

pub record Service (Config : Type 0) : Type 0 where
  pub exact_querier : Option Connection
  pub sketch_querier : Option Connection
  pub cfg : Aggregator Config

pub data ServiceError : Type 0 where
  exact_querier_failed sketch_querier_failed no_clickhouse_writer : ServiceError

pub data Created (A : Type 0) : Type 0 where
  created : A → Created A
  failed : ServiceError → Created A

-- `querierFromWriters`: the first enabled ClickHouse writer decides. The result is `none` when opening
-- its connection fails, and `some none` when no writer qualifies.
unfoldable pub querier_from_writers :
    {Config : Type 0}
    → (Config → Option Connection)
    → List (WriterDef Config)
    → Option (Option Connection)
querier_from_writers connect [] = some none
querier_from_writers connect (w ∷ writers) =
    let rest = querier_from_writers connect writers in
    if not w.enabled || not (bytes_eq w.kind (text "clickhouse"))
    then rest
    else elim (connect w.click_house) [ none ↦ none | some c ↦ some (some c) ]

-- The querier of an aggregator, if its type is enabled.
abbrev pub querier_for :
    {Config : Type 0}
    → (Config → Option Connection)
    → Bytes
    → List Bytes
    → List (WriterDef Config)
    → Option (Option Connection)
querier_for connect kind types writers =
    if contains types kind then querier_from_writers connect writers else some none

abbrev pub with_queriers :
    {Config : Type 0}
    → Aggregator Config
    → Option Connection
    → Option Connection
    → Created (Service Config)
with_queriers cfg none none = failed no_clickhouse_writer
with_queriers cfg (some c) sketch =
    created (record { exact_querier = some c; sketch_querier = sketch; cfg = cfg })
with_queriers cfg none (some c) =
    created (record { exact_querier = none; sketch_querier = some c; cfg = cfg })

-- `newQueryServiceServer`
unfoldable pub new_query_service_server :
    {Config : Type 0} → (Config → Option Connection) → Aggregator Config → Created (Service Config)
unfolding querier_from_writers contains
new_query_service_server connect cfg =
    elim (querier_for connect (text "exact") cfg.types cfg.exact_writers) [
      | none ↦ failed exact_querier_failed
      | some exact ↦ elim (querier_for connect (text "sketch") cfg.types cfg.sketch_writers) [
        | none ↦ failed sketch_querier_failed
        | some sketch ↦ with_queriers cfg exact sketch
      ]
    ]

-- `SearchTasks`
unfoldable pub search_tasks : {Config : Type 0} → Service Config → List Bytes
search_tasks s = s.cfg.exact_tasks ++ s.cfg.sketch_tasks

-- The requests as Thrift carries them.
pub record ThriftAggregationRequest : Type 0 where
  pub end_time_unix_nano : Option ℕ
  pub task_name : Option Bytes
  pub src_ip : Option Bytes
  pub dst_ip : Option Bytes
  pub src_port : Option ℕ
  pub dst_port : Option ℕ
  pub protocol : Option ℕ

pub record ThriftTraceFlowRequest : Type 0 where
  pub task_name : Bytes
  pub flow_keys : List (Bytes × Bytes)
  pub end_time_unix_nano : Option ℕ

pub record ThriftHeavyHittersRequest : Type 0 where
  pub task_name : Bytes
  pub kind : ℕ
  pub end_time_unix_nano : Option ℕ
  pub limit : ℕ

-- `optionalString`, and the getter of an optional text.
abbrev pub optional_string : Option Bytes → Bytes
optional_string none = []
optional_string (some s) = s

unfoldable pub aggregation_request_from_thrift :
    Option ThriftAggregationRequest → AggregationRequest
aggregation_request_from_thrift none = record {
  end_time = none;
  task_name = [];
  src_ip = [];
  dst_ip = [];
  src_port = none;
  dst_port = none;
  protocol = none;
}
aggregation_request_from_thrift (some req) = record {
  end_time = req.end_time_unix_nano;
  task_name = optional_string req.task_name;
  src_ip = optional_string req.src_ip;
  dst_ip = optional_string req.dst_ip;
  src_port = req.src_port;
  dst_port = req.dst_port;
  protocol = req.protocol;
}

unfoldable pub trace_flow_request_from_thrift : Option ThriftTraceFlowRequest → TraceFlowRequest
trace_flow_request_from_thrift none = record { task_name = []; flow_keys = []; end_time = none }
trace_flow_request_from_thrift (some req) = record {
  task_name = req.task_name;
  flow_keys = req.flow_keys;
  end_time = req.end_time_unix_nano;
}

unfoldable pub heavy_hitters_request_from_thrift :
    Option ThriftHeavyHittersRequest → HeavyHittersRequest
heavy_hitters_request_from_thrift none = record {
  task_name = [];
  kind = 0;
  end_time = none;
  limit = 0;
}
heavy_hitters_request_from_thrift (some req) = record {
  task_name = req.task_name;
  kind = req.kind;
  end_time = req.end_time_unix_nano;
  limit = req.limit;
}

-- A handler's error: the aggregator is not configured, or the query failed.
pub data HandlerError : Type 0 where
  exact_not_configured sketch_not_configured : HandlerError
  query_failed : QueryError → HandlerError

pub data Response (A : Type 0) : Type 0 where
  answer : A → Response A
  refuse : HandlerError → Response A

abbrev pub respond : {A : Type 0} → Result A → Response A
respond (ok a) = answer a
respond (err e) = refuse (query_failed e)

-- `AggregateFlows`, `TraceFlow` and `QueryHeavyHitters`. The responses of the querier are those of
-- Thrift, field by field.
unfoldable pub aggregate_flows_handler :
    {Config : Type 0}
    → Service Config
    → Option ThriftAggregationRequest
    → Response (List TaskSummary)
unfolding aggregation_request_from_thrift
aggregate_flows_handler s req = elim s.exact_querier [
  | none ↦ refuse exact_not_configured
  | some c ↦ respond (aggregate_flows c.summaries (aggregation_request_from_thrift req))
]

unfoldable pub trace_flow_handler :
    {Config : Type 0} → Service Config → Option ThriftTraceFlowRequest → Response FlowLifecycle
unfolding trace_flow_request_from_thrift
trace_flow_handler s req = elim s.exact_querier [
  | none ↦ refuse exact_not_configured
  | some c ↦ respond (trace_flow c.lifecycle (trace_flow_request_from_thrift req))
]

unfoldable pub heavy_hitters_handler :
    {Config : Type 0}
    → Service Config
    → Option ThriftHeavyHittersRequest
    → Response (List HeavyHitter)
unfolding heavy_hitters_request_from_thrift
heavy_hitters_handler s req = elim s.sketch_querier [
  | none ↦ refuse sketch_not_configured
  | some c ↦ respond (query_heavy_hitters c.heavy (heavy_hitters_request_from_thrift req))
]
