-- ===== src/Api/Grafana/Points.antt =====
-- Which points the endpoint for Grafana answers with: internal/api/http_server.go.
use go2net_spectra.Base.{
  ℕ, ◌*◌, ◌%◌, ◌^◌, ◌≡◌, refl, subst, arith, Bytes, List, [], ◌∷◌, Option, none, some, ◌⊎◌, ◌↔◌,
  inl, inr, Option-cases,
}
use go2net_spectra.Query.{TaskSummary, ok, aggregate_flows}
use go2net_spectra.Api.{Service, Connection, Response, answer, refuse, HandlerError}
use go2net_spectra.Api.Handlers.{respond-answer}
use go2net_spectra.Api.Grafana.{
  QueryRequest, TimeSeriesResponse, HttpAnswer, bad_request, internal_error, series,
  target_summaries, point, answer_targets, grafana_query,
}

-- The packets of the first summary, 0 if there is none.
abbrev pub first_packets : List TaskSummary → ℕ
first_packets [] = 0
first_packets (s ∷ summaries) = s.total_packets

-- `of_int` is the conversion of an `int64` pattern, and `unix` is `time.Unix`.
module _ {F : Type 0} (of_int : ℕ → F) (unix : ℕ → ℕ) where
  -- The point of one target: the exact aggregator's querier answers the query for that task up to the
  -- end time, and the point has the target, the packets of the first summary (0 if there is none), and
  -- the end time in milliseconds.
  abbrev pub PointOf :
      {Config : Type 0} → Service Config → ℕ → Bytes → TimeSeriesResponse F → Type 0
  PointOf s end_time t p =
      (c : Connection) × (summaries : List TaskSummary) × (s.exact_querier ≡ some c)
      × (aggregate_flows c.summaries (record {
        end_time = some end_time;
        task_name = t;
        src_ip = [];
        dst_ip = [];
        src_port = none;
        dst_port = none;
        protocol = none;
      })
          ≡ ok summaries)
      × (p.target ≡ t)
      × (p.packets ≡ of_int (first_packets summaries))
      × (p.time ≡ of_int (unix end_time * 1000 % 2 ^ 64))

  -- One point for each target, in the order of the targets.
  abbrev pub PointsFor :
      {Config : Type 0} → Service Config → ℕ → List Bytes → List (TimeSeriesResponse F) → Type 0
  PointsFor s end_time [] [] = Unit
  PointsFor s end_time [] (p ∷ points) = ⊥
  PointsFor s end_time (t ∷ targets) [] = ⊥
  PointsFor s end_time (t ∷ targets) (p ∷ points) =
      PointOf s end_time t p × PointsFor s end_time targets points

  target_summaries-PointOf :
      {Config : Type 0} (s : Service Config) (end_time : ℕ) (t : Bytes)
      (summaries : List TaskSummary)
      → target_summaries s end_time t ≡ answer summaries
      → PointOf s end_time t (point of_int unix end_time t summaries)
  unfolding target_summaries point
  target_summaries-PointOf s end_time t summaries e = elim (Option-cases s.exact_querier) [
    | inl missing ↦ absurd (ground (arith, e, missing))
    | inr (c, present) ↦
        let (same, packets, time) = point_lem summaries in
        let done = respond-answer _ summaries (rw present at e) in
        (c, summaries, present, done, same, packets, time)
  ]
    where
      point_lem :
          (l : List TaskSummary)
          → ((point of_int unix end_time t l).target ≡ t)
            × ((point of_int unix end_time t l).packets ≡ of_int (first_packets l))
            × ((point of_int unix end_time t l).time ≡ of_int (unix end_time * 1000 % 2 ^ 64))
      point_lem [] = (refl, refl, refl)
      point_lem (x ∷ l) = (refl, refl, refl)

  PointOf-target_summaries :
      {Config : Type 0} (s : Service Config) (end_time : ℕ) (t : Bytes) (p : TimeSeriesResponse F)
      → PointOf s end_time t p
      → (summaries : List TaskSummary) × (target_summaries s end_time t ≡ answer summaries)
        × (point of_int unix end_time t summaries ≡ p)
  unfolding target_summaries point
  PointOf-target_summaries s end_time t p (c, summaries, present, done, same, packets, time) =
      (summaries, rw (present, done) refl, point_eq summaries packets)
    where
      point_eq :
          (l : List TaskSummary)
          → p.packets ≡ of_int (first_packets l)
          → point of_int unix end_time t l ≡ p
      point_eq [] k = ground (arith, same, k, time)
      point_eq (x ∷ l) k = ground (arith, same, k, time)

  abbrev pub end_time_of : ℕ → QueryRequest → ℕ
  end_time_of tomorrow req = elim req.range_to [ none ↦ tomorrow | some t ↦ t ]

  Response-cases :
      {A : Type 0} (r : Response A)
      → ((a : A) × (r ≡ answer a)) ⊎ ((e : HandlerError) × (r ≡ refuse e))
  Response-cases (answer a) = inl (a, refl)
  Response-cases (refuse e) = inr (e, refl)

  answer_targets_sound :
      {Config : Type 0} (s : Service Config) (end_time : ℕ) (targets : List Bytes)
      (points : List (TimeSeriesResponse F))
      → answer_targets of_int unix s end_time targets ≡ series points
      → PointsFor s end_time targets points
  unfolding answer_targets
  answer_targets_sound s end_time [] [] h = tt
  answer_targets_sound s end_time [] (p ∷ points) h = cc h
  answer_targets_sound s end_time (t ∷ targets) points h =
      let ih : (ps : List (TimeSeriesResponse F))
          → answer_targets of_int unix s end_time targets ≡ series ps
          → PointsFor s end_time targets ps =
        λ ps. answer_targets_sound s end_time targets ps in
      elim (Response-cases (target_summaries s end_time t)) [
        | inr (err, e) ↦ absurd (ground (arith, e, h))
        | inl (summaries, e) ↦
            answered_lem ih (answer_targets of_int unix s end_time targets) summaries refl e
      ]
    where
      points_lem :
          ((ps : List (TimeSeriesResponse F))
            → answer_targets of_int unix s end_time targets ≡ series ps
            → PointsFor s end_time targets ps)
          → (qs ps : List (TimeSeriesResponse F)) (summaries : List TaskSummary)
          → target_summaries s end_time t ≡ answer summaries
          → answer_targets of_int unix s end_time targets ≡ series qs
          → point of_int unix end_time t summaries ∷ qs ≡ ps
          → PointsFor s end_time (t ∷ targets) ps
      points_lem ih qs [] summaries e rest same = absurd (cc same)
      points_lem ih qs (p ∷ ps) summaries e rest same =
          let this : point of_int unix end_time t summaries ≡ p = cc same in
          (
            subst (PointOf s end_time t) this (target_summaries-PointOf s end_time t summaries e),
            ih ps (cc (rest, same)),
          )

      answered_lem :
          ((ps : List (TimeSeriesResponse F))
            → answer_targets of_int unix s end_time targets ≡ series ps
            → PointsFor s end_time targets ps)
          → (r : HttpAnswer F) (summaries : List TaskSummary)
          → answer_targets of_int unix s end_time targets ≡ r
          → target_summaries s end_time t ≡ answer summaries
          → PointsFor s end_time (t ∷ targets) points
      answered_lem ih bad_request summaries rest e = absurd (ground (arith, e, rest, h))
      answered_lem ih (internal_error x) summaries rest e = absurd (ground (arith, e, rest, h))
      answered_lem ih (series qs) summaries rest e =
          points_lem ih qs points summaries e rest (ground (arith, e, rest, h))

  answer_targets_complete :
      {Config : Type 0} (s : Service Config) (end_time : ℕ) (targets : List Bytes)
      (points : List (TimeSeriesResponse F))
      → PointsFor s end_time targets points
      → answer_targets of_int unix s end_time targets ≡ series points
  unfolding answer_targets
  answer_targets_complete s end_time [] [] x = refl
  answer_targets_complete s end_time [] (p ∷ points) x = absurd x
  answer_targets_complete s end_time (t ∷ targets) [] x = absurd x
  answer_targets_complete s end_time (t ∷ targets) (p ∷ points) (this, x) =
      let (summaries, e, same) = PointOf-target_summaries s end_time t p this in
      let ih = answer_targets_complete s end_time targets points x in ground (arith, e, same, ih)

  -- The endpoint answers a decoded request with a list of points exactly when that list has one point
  -- for each target, in their order: the exact aggregator's querier answers the query for that target
  -- up to the end of the range (a day from now if it has none), and the point holds the target, the
  -- packets of the first summary of the answer (0 if it is empty) and that end time in milliseconds.
  pub grafana_query-PointsFor :
      {Config : Type 0} (s : Service Config) (tomorrow : ℕ) (req : QueryRequest)
      (points : List (TimeSeriesResponse F))
      → (grafana_query of_int unix s tomorrow (some req) ≡ series points)
        ↔ PointsFor s (end_time_of tomorrow req) req.targets points
  unfolding grafana_query
  grafana_query-PointsFor s tomorrow req points = range_lem req.range_to refl
    where
      range_lem :
          (r : Option ℕ)
          → req.range_to ≡ r
          → (grafana_query of_int unix s tomorrow (some req) ≡ series points)
            ↔ PointsFor s (end_time_of tomorrow req) req.targets points
      range_lem none e = rw e (
        answer_targets_sound s tomorrow req.targets points,
        answer_targets_complete s tomorrow req.targets points,
      )
      range_lem (some t) e = rw e (
        answer_targets_sound s t req.targets points,
        answer_targets_complete s t req.targets points,
      )
