-- ===== src/Writers.antt =====
-- The writers of snapshots: internal/engine/impl/exact/writer_clickhouse.go and writer_gob.go, and
-- internal/engine/impl/sketch/writer_clickhouse.go and writer_text.go. The database, the file system
-- and the encoders answer through parameters.
pub mod Exact
pub mod Sketch
mod Tests
use go2net_spectra.Base.{
  ℕ, ◌+◌, ◌==◌, Bytes, text, itoa, List, [], ◌∷◌, ◌++◌, length, Option, none, some, Bool, true,
  false, if◌then◌else◌,
}
use go2net_spectra.Base.Dict.{lookup}
use go2net_spectra.CountMin.{HeavyHitter, HeavyRecord}
use go2net_spectra.ExactTask.{u64, FieldValue, Flow, Shard, SnapshotData}

-- What the ClickHouse client answers: to the preparation of a batch, to each row, and to the sending.
pub record Batch (Row : Type 0) : Type 0 where
  pub prepares : Bool
  pub appends : Row → Bool
  pub sends : Bool

pub data Written (Row : Type 0) : Type 0 where
  nothing prepare_failed append_failed send_failed : Written Row
  sent : List Row → Written Row

-- A row of `flow_metrics`, less the time of the snapshot.
pub record MetricRow : Type 0 where
  pub task_name : Bytes
  pub src_ip : Option FieldValue
  pub dst_ip : Option FieldValue
  pub src_port : Option FieldValue
  pub dst_port : Option FieldValue
  pub protocol : Option FieldValue
  pub start_time : ℕ
  pub end_time : ℕ
  pub byte_count : ℕ
  pub packet_count : ℕ

-- `getNullableField` is `lookup`.
unfoldable pub metric_row : Bytes → Flow → MetricRow
metric_row name f = record {
  task_name = name;
  src_ip = lookup (text "SrcIP") f.fields;
  dst_ip = lookup (text "DstIP") f.fields;
  src_port = lookup (text "SrcPort") f.fields;
  dst_port = lookup (text "DstPort") f.fields;
  protocol = lookup (text "Protocol") f.fields;
  start_time = f.start_time;
  end_time = f.end_time;
  byte_count = f.byte_count;
  packet_count = f.packet_count;
}

abbrev pub flow_count : List Shard → ℕ
flow_count [] = 0
flow_count (s ∷ shards) = length s + flow_count shards

-- The inner loop and the outer one: the rows of the batch, or `none` at the first error.
unfoldable pub append_flows :
    (MetricRow → Bool) → Bytes → Shard → List MetricRow → Option (List MetricRow)
unfolding metric_row
append_flows appends name [] rows = some rows
append_flows appends name ((k, f) ∷ flows) rows =
    let rest = append_flows appends name flows (rows ++ metric_row name f ∷ []) in
    if appends (metric_row name f) then rest else none

unfoldable pub append_shards :
    (MetricRow → Bool) → Bytes → List Shard → List MetricRow → Option (List MetricRow)
unfolding append_flows
append_shards appends name [] rows = some rows
append_shards appends name (s ∷ shards) rows = elim (append_flows appends name s rows) [
  | none ↦ none
  | some more ↦ append_shards appends name shards more
]

-- How a batch ends.
abbrev pub finish_batch : {Row : Type 0} → Batch Row → Option (List Row) → Written Row
finish_batch b none = append_failed
finish_batch b (some rows) = if b.sends then sent rows else send_failed

-- `Write` of the exact task's ClickHouse writer.
unfoldable pub write_flows : Batch MetricRow → SnapshotData → Written MetricRow
unfolding append_shards
write_flows b snapshot =
    if flow_count snapshot.shards == 0
    then nothing
    else if b.prepares
    then finish_batch b (append_shards b.appends snapshot.task_name snapshot.shards [])
    else prepare_failed

-- `summaryData`, less its time.
pub record SummaryData : Type 0 where
  pub task_name : Bytes
  pub total_flows : ℕ
  pub total_bytes : ℕ
  pub total_packets : ℕ
  pub shards : ℕ

-- What the gob writer's files answer: to the directory, to the file of a shard, and to the summary.
pub record Files : Type 0 where
  pub makes_directory : Bool
  pub takes_shard : ℕ → Shard → Bool
  pub takes_summary : SummaryData → Bool

-- The two sums over the flows of a shard: packets and bytes.
unfoldable pub add_flows : Shard → ℕ × ℕ → ℕ × ℕ
add_flows [] acc = acc
add_flows ((k, f) ∷ flows) (packets, bytes) =
    add_flows flows (u64 (packets + f.packet_count), u64 (bytes + f.byte_count))

-- The loop over the shards, from the i-th on, with the flows, packets and bytes so far: `none` at the
-- first error.
unfoldable pub write_shards : Files → ℕ → List Shard → ℕ × ℕ × ℕ → Option (ℕ × ℕ × ℕ)
unfolding add_flows
write_shards files i [] acc = some acc
write_shards files i ([] ∷ shards) acc = write_shards files (i + 1) shards acc
write_shards files i ((x ∷ flows) ∷ shards) (total, packets, bytes) =
    let sums = add_flows (x ∷ flows) (packets, bytes) in
    let rest = write_shards files (i + 1) shards (total + length (x ∷ flows), sums.0, sums.1) in
    if files.takes_shard i (x ∷ flows) then rest else none

-- `Write` of the gob writer: whether it returned without an error, and the summary that it wrote.
unfoldable pub write_gob : Files → SnapshotData → Bool × Option SummaryData
unfolding write_shards
write_gob files snapshot =
    if files.makes_directory
    then elim (write_shards files 0 snapshot.shards (0, 0, 0)) [
      | none ↦ (false, none)
      | some (total, packets, bytes) ↦
          let summary : SummaryData = record {
            task_name = snapshot.task_name;
            total_flows = total;
            total_bytes = bytes;
            total_packets = packets;
            shards = length snapshot.shards;
          } in
          if total == 0
          then (true, none)
          else if files.takes_summary summary
          then (true, some summary)
          else (false, none)
    ]
    else (false, none)

-- A row of `heavy_hitters`, less the time of the snapshot; `kind` is its column `Type`.
pub record HeavyRow : Type 0 where
  pub task_name : Bytes
  pub flow : Bytes
  pub value : ℕ
  pub kind : ℕ

unfoldable pub heavy_row : (Bytes → Bytes) → Bytes → ℕ → HeavyHitter → HeavyRow
heavy_row decode name kind h = record {
  task_name = name;
  flow = decode h.flow;
  value = h.value;
  kind = kind;
}

-- One of the three loops of the sketch tasks' ClickHouse writer.
unfoldable pub append_hitters :
    (HeavyRow → Bool)
    → (Bytes → Bytes)
    → Bytes
    → ℕ
    → List HeavyHitter
    → List HeavyRow
    → Option (List HeavyRow)
unfolding heavy_row
append_hitters appends decode name kind [] rows = some rows
append_hitters appends decode name kind (h ∷ hs) rows =
    let rest =
      append_hitters appends decode name kind hs (rows ++ heavy_row decode name kind h ∷ []) in
    if appends (heavy_row decode name kind h) then rest else none

-- `Write` of that writer; `nil_sizes` is `heavyHitters.Size == nil`, and then `r.size` is empty.
unfoldable pub write_hitters :
    Batch HeavyRow → (Bytes → Bytes) → Bytes → Bool → HeavyRecord → Written HeavyRow
unfolding append_hitters
write_hitters b decode name nil_sizes r =
    if length r.size + length r.count == 0
    then nothing
    else if b.prepares
    then finish_batch b (
        if nil_sizes
        then append_hitters b.appends decode name 2 r.count []
        else elim (append_hitters b.appends decode name 1 r.size []) [
          | none ↦ none
          | some rows ↦ append_hitters b.appends decode name 0 r.count rows
        ])
    else prepare_failed

-- A line of the text writer, and the files of a task's directory with their lines.
unfoldable pub hitter_line : (Bytes → Bytes) → HeavyHitter → Bytes
hitter_line decode h = decode h.flow ++ (text " " ++ (itoa h.value ++ 10 ∷ []))

unfoldable pub hitter_lines : (Bytes → Bytes) → List HeavyHitter → List Bytes
unfolding hitter_line
hitter_lines decode [] = []
hitter_lines decode (h ∷ hs) = hitter_line decode h ∷ hitter_lines decode hs

-- `Write` of the text writer when the file system takes everything.
unfoldable pub text_files : (Bytes → Bytes) → Bool → HeavyRecord → List (Bytes × List Bytes)
unfolding hitter_lines
text_files decode nil_sizes r =
    if nil_sizes
    then (text "spread_ss.txt", hitter_lines decode r.count) ∷ []
    else (text "size_hh.txt", hitter_lines decode r.size)
      ∷ (text "count_hh.txt", hitter_lines decode r.count)
      ∷ []
