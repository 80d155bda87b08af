-- ===== src/Api/Handlers.antt =====
-- When the service is created, and what its handlers answer.
use go2net_spectra.Base.{
  ℕ, bytes_eq→eq, ◌⊎◌, ◌++◌, ◌≡◌, ◌≢◌, refl, ap, sym, ◌∙◌, arith, Bytes, text, bytes_eq, List, [],
  ◌∷◌, map, Option, none, some, true, false, Bool-cases, Option-cases, inl, inr, All,
}
use go2net_spectra.Query.{
  HeavyHitter, Result, ok, err, query_heavy_hitters, heavy_hitters_sql, contains, DriverRows,
}
use go2net_spectra.Query.Rows.{heavy_row, FitsInt64, Delivers, query_heavy_hitters_lem}
use go2net_spectra.Api.{
  WriterDef, Aggregator, Connection, Service, Created, created, failed, querier_from_writers,
  querier_for, with_queriers, new_query_service_server, ThriftHeavyHittersRequest,
  heavy_hitters_request_from_thrift, answer, refuse, respond, heavy_hitters_handler,
  aggregate_flows_handler, ThriftAggregationRequest, exact_not_configured, sketch_not_configured,
}

-- A writer that the service passes over.
abbrev pub IsSkipped : {Config : Type 0} → WriterDef Config → Type 0
IsSkipped w = (w.enabled ≡ false) ⊎ (bytes_eq w.kind (text "clickhouse") ≡ false)

-- The writers of an aggregator: after those that are passed over comes an enabled ClickHouse writer,
-- whose connection opens as `c`.
abbrev pub FirstOpens :
    {Config : Type 0} → (Config → Option Connection) → List (WriterDef Config) → Connection → Type 0
FirstOpens {Config} connect writers c =
    (before : List (WriterDef Config)) × (w : WriterDef Config) × (after : List (WriterDef Config))
    × (writers ≡ before ++ w ∷ after)
    × All IsSkipped before
    × (w.enabled ≡ true)
    × (w.kind ≡ text "clickhouse")
    × (connect w.click_house ≡ some c)

FirstOpens-later :
    {Config : Type 0} (connect : Config → Option Connection) (w : WriterDef Config)
    (writers : List (WriterDef Config)) (c : Connection)
    → IsSkipped w
    → FirstOpens connect writers c
    → FirstOpens connect (w ∷ writers) c
FirstOpens-later connect w writers c h (before, w', after, e, skipped, on, right, opened) =
    (w ∷ before, w', after, ap (◌∷◌ w) e, (h, skipped), on, right, opened)

querier_from_writers_sound :
    {Config : Type 0} (connect : Config → Option Connection) (writers : List (WriterDef Config))
    (c : Connection)
    → querier_from_writers connect writers ≡ some (some c)
    → FirstOpens connect writers c
unfolding querier_from_writers
querier_from_writers_sound connect [] c e = absurd (ground (arith, e))
querier_from_writers_sound connect (w ∷ writers) c e =
    let later = querier_from_writers_sound connect writers c in
    elim (Bool-cases w.enabled) [
      | inr off ↦ FirstOpens-later connect w writers c (inl off) (later (rw off at e))
      | inl on ↦ elim (Bool-cases (bytes_eq w.kind (text "clickhouse"))) [
        | inr other ↦ FirstOpens-later connect w writers c (inr other) (later (rw (on, other) at e))
        | inl right ↦
            let opened : connect w.click_house ≡ some c = ground (arith, e, on, right) in
            ([], w, writers, refl, tt, on, bytes_eq→eq w.kind (text "clickhouse") right, opened)
      ]
    ]

pub respond-answer : {A : Type 0} (r : Result A) (a : A) → respond r ≡ answer a → r ≡ ok a
respond-answer (ok b) a e = ground (arith, e)
respond-answer (err x) a e = cc e

respond-configured :
    {A : Type 0} (r : Result A)
    → (respond r ≢ refuse exact_not_configured) × (respond r ≢ refuse sketch_not_configured)
respond-configured (ok a) = (λ e. cc e, λ e. cc e)
respond-configured (err x) = (λ e. cc e, λ e. cc e)

-- The querier of one aggregator is present only when its type is enabled.
querier_for_sound :
    {Config : Type 0} (connect : Config → Option Connection) (kind : Bytes) (types : List Bytes)
    (writers : List (WriterDef Config)) (c : Connection)
    → querier_for connect kind types writers ≡ some (some c)
    → (contains types kind ≡ true) × FirstOpens connect writers c
querier_for_sound connect kind types writers c e = elim (Bool-cases (contains types kind)) [
  | inl on ↦ (on, querier_from_writers_sound connect writers c (rw on at e))
  | inr off ↦ absurd (ground (arith, e, off))
]

abbrev queriers :
    {Config : Type 0} → Created (Service Config) → Option Connection × Option Connection
queriers (created s) = (s.exact_querier, s.sketch_querier)
queriers (failed e) = (none, none)

with_queriers-created :
    {Config : Type 0} (cfg : Aggregator Config) (exact sketch : Option Connection)
    (s : Service Config)
    → with_queriers cfg exact sketch ≡ created s
    → (s.exact_querier ≡ exact) × (s.sketch_querier ≡ sketch) × ((exact ≢ none) ⊎ (sketch ≢ none))
with_queriers-created cfg none none s e = cc e
with_queriers-created cfg (some c) sketch s e =
    (sym (ap (λ r. (queriers r).0) e), sym (ap (λ r. (queriers r).1) e), inl (λ bad. cc))
with_queriers-created cfg none (some c) s e =
    (sym (ap (λ r. (queriers r).0) e), sym (ap (λ r. (queriers r).1) e), inr (λ bad. cc))

-- `newQueryServiceServer` has chosen these queriers.
new_query_service_server-created :
    {Config : Type 0} (connect : Config → Option Connection) (cfg : Aggregator Config)
    (s : Service Config)
    → new_query_service_server connect cfg ≡ created s
    → (querier_for connect (text "exact") cfg.types cfg.exact_writers ≡ some s.exact_querier)
      × (querier_for connect (text "sketch") cfg.types cfg.sketch_writers ≡ some s.sketch_querier)
      × ((s.exact_querier ≢ none) ⊎ (s.sketch_querier ≢ none))
unfolding new_query_service_server
new_query_service_server-created connect cfg s e =
    elim (Option-cases (querier_for connect (text "exact") cfg.types cfg.exact_writers)) [
      | inl no_exact ↦ absurd (ground (arith, e, no_exact))
      | inr (exact, got_exact) ↦
          elim (Option-cases (querier_for connect (text "sketch") cfg.types cfg.sketch_writers)) [
            | inl no_sketch ↦ absurd (ground (arith, e, got_exact, no_sketch))
            | inr (sketch, got_sketch) ↦
                let built : with_queriers cfg exact sketch ≡ created s =
                  ground (arith, e, got_exact, got_sketch) in
                let (x, k, some_one) = with_queriers-created cfg exact sketch s built in
                (got_exact ∙ ap some (sym x), got_sketch ∙ ap some (sym k), rw (x, k) some_one)
          ]
    ]

-- A heavy-hitters call of a service that `newQueryServiceServer` created answers with a list only
-- when the sketch aggregator is enabled, the first enabled ClickHouse writer of the sketch aggregator
-- has an open connection, and the list is the rows that the connection's result delivered, whether it
-- then ended or broke off, all of whose values fit an `int64`.
pub heavy_hitters_handler_sound :
    {Config : Type 0} (connect : Config → Option Connection) (cfg : Aggregator Config)
    (s : Service Config) (req : Option ThriftHeavyHittersRequest) (hs : List HeavyHitter)
    → new_query_service_server connect cfg ≡ created s
    → heavy_hitters_handler s req ≡ answer hs
    → (contains cfg.types (text "sketch") ≡ true)
      × ((c : Connection) × FirstOpens connect cfg.sketch_writers c
          × ((rows : DriverRows (Bytes × ℕ)) × (c.heavy
                  (heavy_hitters_sql (heavy_hitters_request_from_thrift req))
                ≡ some rows)
              × Delivers rows (map heavy_row hs)))
      × All FitsInt64 hs
unfolding heavy_hitters_handler
heavy_hitters_handler_sound connect cfg s req hs made e =
    let (x, k, one) = new_query_service_server-created connect cfg s made in
    elim (Option-cases s.sketch_querier) [
      | inl missing ↦ absurd (ground (arith, e, missing))
      | inr (c, present) ↦
          let (on, first) =
            querier_for_sound connect (text "sketch") cfg.types cfg.sketch_writers c
              (k ∙ ap some present) in
          let asked = heavy_hitters_request_from_thrift req in
          let done : query_heavy_hitters c.heavy asked ≡ ok hs =
            respond-answer _ hs (rw present at e) in
          let (rows, fits) = (query_heavy_hitters_lem c.heavy asked hs).0 done in
          (on, (c, first, rows), fits)
    ]

-- A created service has a querier for one of the two aggregators: not every call is refused as not
-- configured.
pub new_query_service_server_serves :
    {Config : Type 0} (connect : Config → Option Connection) (cfg : Aggregator Config)
    (s : Service Config)
    → new_query_service_server connect cfg ≡ created s
    → ((req : Option ThriftAggregationRequest)
        → aggregate_flows_handler s req ≢ refuse exact_not_configured)
      ⊎ ((req : Option ThriftHeavyHittersRequest)
          → heavy_hitters_handler s req ≢ refuse sketch_not_configured)
unfolding aggregate_flows_handler heavy_hitters_handler
new_query_service_server_serves connect cfg s made =
    elim (new_query_service_server-created connect cfg s made).2 [
      | inl exact ↦ inl (λ req h. elim (Option-cases s.exact_querier) [
        | inl missing ↦ exact missing
        | inr (c, present) ↦ (respond-configured _).0 (rw present at h)
      ])
      | inr sketch ↦ inr (λ req h. elim (Option-cases s.sketch_querier) [
        | inl missing ↦ sketch missing
        | inr (c, present) ↦ (respond-configured _).1 (rw present at h)
      ])
    ]
