-- ===== src/AlertRules.antt =====
-- The alert rules of the two kinds of task: `AlerterMsg` and `check` of
-- internal/engine/impl/exact/task.go and internal/engine/impl/sketch/task.go, over the rules of
-- internal/config/config.go. float64 and its printing are a parameter.
pub mod Triggers
use go2net_spectra.Base.{
  ℕ, suc, ◌+◌, Bytes, text, bytes_eq, join, itoa, List, [], ◌∷◌, ◌++◌, Option, none, some, Bool,
  true, false, if◌then◌else◌,
}
use go2net_spectra.CountMin.{HeavyHitter, HeavyRecord}
use go2net_spectra.ExactTask.{Task, SnapshotData, snapshot, totals}

-- What the code uses of float64: comparisons, the conversion of an integer, `%.2f` and `%.0f`.
pub record Floats : Type 1 where
  pub F : Type 0
  pub of_uint64 : ℕ → F
  pub gt : F → F → Bool
  pub lt : F → F → Bool
  pub eq : F → F → Bool
  pub ge : F → F → Bool
  pub le : F → F → Bool
  pub two_decimals : F → Bytes
  pub no_decimals : F → Bytes

pub record AlerterRule (F : Type 0) : Type 0 where
  pub name : Bytes
  pub task_name : Bytes
  pub metric : Bytes
  pub operator : Bytes
  pub threshold : F

abbrev pub concat : List Bytes → Bytes
concat [] = []
concat (x ∷ xs) = x ++ concat xs

-- The messages of one task, between horizontal rules.
abbrev pub separator : Bytes
separator = text "<br><hr><br>"

module _ (fl : Floats) where
  -- `check`, which the two tasks have in the same words.
  unfoldable pub check : fl.F → fl.F → Bytes → Bool
  check value threshold operator =
      if bytes_eq operator (text ">")
      then fl.gt value threshold
      else if bytes_eq operator (text "<")
      then fl.lt value threshold
      else if bytes_eq operator (text "=")
      then fl.eq value threshold
      else if bytes_eq operator (text ">=")
      then fl.ge value threshold
      else if bytes_eq operator (text "<=")
      then fl.le value threshold
      else false

  -- What every message begins with.
  abbrev pub heading : AlerterRule fl.F → List Bytes
  heading rule =
      text "<h3>Alert: "
      ∷ rule.name
      ∷ text "</h3><ul><li><b>Task:</b> <code>"
      ∷ rule.task_name
      ∷ text "</code></li><li><b>Metric:</b> <code>"
      ∷ rule.metric
      ∷ text "</code></li><li><b>Condition:</b> <code>"
      ∷ rule.operator
      ∷ text " "
      ∷ fl.two_decimals rule.threshold
      ∷ text "</code></li>"
      ∷ []

  -- The metric of an exact rule: its value and its unit.
  unfoldable pub exact_metric : ℕ × ℕ × ℕ → Bytes → Option (fl.F × Bytes)
  exact_metric (packets, bytes, flows) metric =
      if bytes_eq metric (text "total_packets")
      then some (fl.of_uint64 packets, text "packets")
      else if bytes_eq metric (text "total_bytes")
      then some (fl.of_uint64 bytes, text "bytes")
      else if bytes_eq metric (text "total_flows")
      then some (fl.of_uint64 flows, text "flows")
      else none

  unfoldable pub exact_message : AlerterRule fl.F → fl.F → Bytes → Bytes
  exact_message rule value unit =
      concat (heading rule)
      ++ concat (
          text "<li><b>Observed Value:</b> <code>"
          ∷ fl.no_decimals value
          ∷ text " "
          ∷ unit
          ∷ text "</code></li></ul>"
          ∷ [])

  -- The loop of `AlerterMsg` of the exact task.
  unfoldable pub exact_messages : Bytes → ℕ × ℕ × ℕ → List (AlerterRule fl.F) → List Bytes
  unfolding exact_metric check
  exact_messages name sums [] = []
  exact_messages name sums (rule ∷ rules) =
      let rest = exact_messages name sums rules in
      if bytes_eq rule.task_name name
      then elim (exact_metric sums rule.metric) [
        | none ↦ rest
        | some (value, unit) ↦
            if check value rule.threshold rule.operator
            then exact_message rule value unit ∷ rest
            else rest
      ]
      else rest

  unfoldable pub exact_alerter_msg : Task → List (AlerterRule fl.F) → Bytes
  unfolding exact_messages snapshot totals
  exact_alerter_msg t rules =
      join (exact_messages t.name (totals (snapshot t).shards (0, 0, 0)) rules) separator

  -- The rows of the table of a sketch rule.
  unfoldable pub hitter_rows :
      (Bytes → Bytes) → Bytes → AlerterRule fl.F → List HeavyHitter → List Bytes
  unfolding check
  hitter_rows decode unit rule [] = []
  hitter_rows decode unit rule (h ∷ hs) =
      let rest = hitter_rows decode unit rule hs in
      if check (fl.of_uint64 h.value) rule.threshold rule.operator
      then concat (
          text "<tr><td><code>"
          ∷ decode h.flow
          ∷ text "</code></td><td>"
          ∷ itoa h.value
          ∷ unit
          ∷ text "</td></tr>"
          ∷ [])
        ∷ rest
      else rest

  -- The `switch` on the metric; `nil_sizes` is whether the sketch reports no sizes, `Size == nil`.
  unfoldable pub sketch_rows : (Bytes → Bytes) → Bool → HeavyRecord → AlerterRule fl.F → List Bytes
  unfolding hitter_rows
  sketch_rows decode nil_sizes r rule =
      if bytes_eq rule.metric (text "heavy_hitter_count")
      then hitter_rows decode [] rule r.count
      else if bytes_eq rule.metric (text "heavy_hitter_size")
      then hitter_rows decode (text " bytes") rule r.size
      else if bytes_eq rule.metric (text "super_spreader_spread")
      then if nil_sizes then hitter_rows decode [] rule r.count else []
      else []

  unfoldable pub sketch_message : AlerterRule fl.F → List Bytes → Bytes
  sketch_message rule rows =
      concat (heading rule)
      ++ concat (
          text "</ul><p><b>Triggering Items:</b></p>"
          ∷ text
              "<table border=\"1\" cellpadding=\"5\" cellspacing=\"0\"><tr><th>Flow/Source</th><th>Value</th></tr>"
          ∷ concat rows
          ∷ text "</table>"
          ∷ [])

  -- The loop of `AlerterMsg` of the sketch task.
  unfoldable pub sketch_messages :
      (Bytes → Bytes) → Bool → Bytes → HeavyRecord → List (AlerterRule fl.F) → List Bytes
  unfolding sketch_rows
  sketch_messages decode nil_sizes name r [] = []
  sketch_messages decode nil_sizes name r (rule ∷ rules) =
      let rest = sketch_messages decode nil_sizes name r rules in
      if bytes_eq rule.task_name name
      then elim (sketch_rows decode nil_sizes r rule) [
        | [] ↦ rest
        | row ∷ rows ↦ sketch_message rule (row ∷ rows) ∷ rest
      ]
      else rest

  unfoldable pub sketch_alerter_msg :
      (Bytes → Bytes) → Bool → Bytes → HeavyRecord → List (AlerterRule fl.F) → Bytes
  unfolding sketch_messages
  sketch_alerter_msg decode nil_sizes name r rules =
      join (sketch_messages decode nil_sizes name r rules) separator
