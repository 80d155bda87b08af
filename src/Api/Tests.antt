-- ===== src/Api/Tests.antt =====
-- A service with one ClickHouse writer for the sketch aggregator.
use go2net_spectra.Base.{
  if◌then◌else◌, ℕ, ◌≡◌, ◌↔◌, refl, Bytes, bytes_eq, text, List, [], ◌∷◌, map, Option, none, some,
  All, true,
}
use go2net_spectra.Query.{
  aggregate_flows, aggregate_sql, append_aggregation_filters, summary_rows, summary_row, Arg, str,
  HeavyHitter, heavy_hitters_sql, contains, query_heavy_hitters, heavy_rows, uint64_to_int64,
  DriverRows, next_row, end_of_rows,
}
use go2net_spectra.Query.Rows.{heavy_row, FitsInt64, Delivers}
use go2net_spectra.Api.{
  Aggregator, Connection, Service, new_query_service_server, querier_from_writers,
  heavy_hitters_handler, heavy_hitters_request_from_thrift,
}
use go2net_spectra.Api.Grafana.{
  QueryRequest, TimeSeriesResponse, series, grafana_query, answer_targets, target_summaries, point,
}
use go2net_spectra.Api.Grafana.Points.{PointsFor, end_time_of, grafana_query-PointsFor}
use go2net_spectra.Api.Handlers.{FirstOpens, heavy_hitters_handler_sound}

abbrev database : Connection
database = record {
  heavy = λ sql. some (next_row (text "f", 3) end_of_rows);
  summaries = λ sql. some end_of_rows;
  lifecycle = λ sql. none;
}

-- Opens every configuration, here a number.
abbrev connect : ℕ → Option Connection
connect n = some database

abbrev cfg : Aggregator ℕ
cfg = record {
  types = text "sketch" ∷ [];
  exact_tasks = [];
  exact_writers = [];
  sketch_tasks = text "t" ∷ [];
  sketch_writers =
      record { kind = text "text"; enabled = true; click_house = 0 }
      ∷ record { kind = text "clickhouse"; enabled = true; click_house = 1 }
      ∷ [];
}

abbrev service : Service ℕ
service = record { exact_querier = none; sketch_querier = some database; cfg = cfg }

abbrev hitters : List HeavyHitter
hitters = record { flow = text "f"; value = 3 } ∷ []

heavy_hitters_handler_example :
    (contains cfg.types (text "sketch") ≡ true)
    × ((c : Connection) × FirstOpens connect cfg.sketch_writers c
        × ((rows : DriverRows (Bytes × ℕ)) × (c.heavy
                (heavy_hitters_sql (heavy_hitters_request_from_thrift none))
              ≡ some rows)
            × Delivers rows (map heavy_row hitters)))
    × All FitsInt64 hitters
unfolding new_query_service_server querier_from_writers contains bytes_eq heavy_hitters_handler
    query_heavy_hitters heavy_rows uint64_to_int64
heavy_hitters_handler_example =
    heavy_hitters_handler_sound connect cfg service none hitters refl refl

-- A connection that has a summary of one task, "t".
abbrev totals : List Arg → DriverRows (Bytes × ℕ × ℕ × ℕ)
totals (str name ∷ args) =
    if bytes_eq name (text "t") then next_row (name, 6000, 42, 3) end_of_rows else end_of_rows
totals args = end_of_rows

abbrev exact_database : Connection
exact_database = record database { summaries = λ sql. some (totals sql.1) }

abbrev grafana_service : Service ℕ
grafana_service = record { exact_querier = some exact_database; sketch_querier = none; cfg = cfg }

abbrev grafana_request : QueryRequest
grafana_request = record { targets = text "u" ∷ text "t" ∷ []; range_to = none }

abbrev grafana_points : List (TimeSeriesResponse ℕ)
grafana_points =
    record { target = text "u"; packets = 0; time = 7000 }
    ∷ record { target = text "t"; packets = 42; time = 7000 }
    ∷ []

grafana_answers :
    grafana_query (λ x. x) (λ t. t) grafana_service 7 (some grafana_request) ≡ series grafana_points
unfolding grafana_query answer_targets target_summaries point aggregate_flows aggregate_sql
    append_aggregation_filters summary_rows summary_row uint64_to_int64 bytes_eq
grafana_answers = refl

grafana_query_example :
    (grafana_query (λ x. x) (λ t. t) grafana_service 7 (some grafana_request)
      ≡ series grafana_points)
    ↔ PointsFor
        (λ x. x)
        (λ t. t)
        grafana_service
        (end_time_of (λ x. x) (λ t. t) 7 grafana_request)
        (text "u" ∷ text "t" ∷ [])
        grafana_points
grafana_query_example =
    grafana_query-PointsFor (λ x. x) (λ t. t) grafana_service 7 grafana_request grafana_points
