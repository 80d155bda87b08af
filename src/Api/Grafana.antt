-- ===== src/Api/Grafana.antt =====
-- The endpoint for Grafana: internal/api/http_server.go. JSON, the clock and float64 are parameters.
pub mod Points
use go2net_spectra.Base.{
  ℕ, ◌*◌, ◌%◌, ◌^◌, ◌≡◌, refl, arith, Bytes, List, [], ◌∷◌, Option, none, some, ◌⊎◌, ◌↔◌, inl, inr,
  subst, Option-cases,
}
use go2net_spectra.Query.{TaskSummary, aggregate_flows}
use go2net_spectra.Api.{
  Service, Connection, Response, answer, refuse, HandlerError, exact_not_configured, respond,
}

-- `queryRequest`; `range_to` is `none` for the zero time.
pub record QueryRequest : Type 0 where
  pub targets : List Bytes
  pub range_to : Option ℕ

-- `timeSeriesResponse`, with its one point.
pub record TimeSeriesResponse (F : Type 0) : Type 0 where
  pub target : Bytes
  pub packets : F
  pub time : F

pub data HttpAnswer (F : Type 0) : Type 0 where
  bad_request : HttpAnswer F
  internal_error : HandlerError → HttpAnswer F
  series : List (TimeSeriesResponse F) → HttpAnswer F

-- `aggregateFlows` of the service, for the request that the endpoint makes.
unfoldable pub target_summaries :
    {Config : Type 0} → Service Config → ℕ → Bytes → Response (List TaskSummary)
target_summaries s end_time target = elim s.exact_querier [
  | none ↦ refuse exact_not_configured
  | some c ↦ respond (
      aggregate_flows c.summaries (record {
        end_time = some end_time;
        task_name = target;
        src_ip = [];
        dst_ip = [];
        src_port = none;
        dst_port = none;
        protocol = none;
      }))
]

-- `of_int` is the conversion of an `int64` pattern, and `unix` is `time.Unix`.
module _ {F : Type 0} (of_int : ℕ → F) (unix : ℕ → ℕ) where
  unfoldable pub point : ℕ → Bytes → List TaskSummary → TimeSeriesResponse F
  point end_time target [] = record {
    target = target;
    packets = of_int 0;
    time = of_int (unix end_time * 1000 % 2 ^ 64);
  }
  point end_time target (s ∷ summaries) = record {
    target = target;
    packets = of_int s.total_packets;
    time = of_int (unix end_time * 1000 % 2 ^ 64);
  }

  -- The loop over the targets, which the first error ends.
  unfoldable pub answer_targets : {Config : Type 0} → Service Config → ℕ → List Bytes → HttpAnswer F
  unfolding target_summaries point
  answer_targets s end_time [] = series []
  answer_targets s end_time (t ∷ targets) =
      let rest = answer_targets s end_time targets in
      elim (target_summaries s end_time t) [
        | refuse e ↦ internal_error e
        | answer summaries ↦ elim rest [
          | bad_request ↦ bad_request
          | internal_error e ↦ internal_error e
          | series points ↦ series (point end_time t summaries ∷ points)
        ]
      ]

  -- The handler of `/query`; `tomorrow` is a day from now.
  unfoldable pub grafana_query :
      {Config : Type 0} → Service Config → ℕ → Option QueryRequest → HttpAnswer F
  unfolding answer_targets
  grafana_query s tomorrow none = bad_request
  grafana_query s tomorrow (some req) = elim req.range_to [
    | none ↦ answer_targets s tomorrow req.targets
    | some end_time ↦ answer_targets s end_time req.targets
  ]
