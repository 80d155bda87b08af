-- ===== src/SpreadTask.antt =====
-- The sketch task over a spread sketch: internal/engine/impl/sketch/task.go, with the sketch type 1. A
-- pooled buffer is given by all the bytes of its capacity. The sketch goes with how many random numbers
-- it has drawn.
pub mod Repeats
mod Tests
use go2net_spectra.Base.{ℕ, Bytes, List, [], ◌∷◌, Option, none, some}
use go2net_spectra.Packet.{PacketInfo}
use go2net_spectra.Murmur.{u32}
use go2net_spectra.SketchTask.{◌>>=◌, fields_size, packet_keys}
use go2net_spectra.CountMin.{HeavyRecord}
use go2net_spectra.HyperLogLog.{Floats}
use go2net_spectra.SuperSpread.{
  SuperSpread, new_super_spread, insert_flow, query, heavy_hitters, reset,
}

module _ (fl : Floats) where
  -- The fields of `SketchTaskDef` that a spread task reads.
  pub record SketchTaskDef : Type 0 where
    pub name : Bytes
    pub flow_fields : List Bytes
    pub element_fields : List Bytes
    pub width : ℕ
    pub depth : ℕ
    pub count_threshold : ℕ
    pub m : ℕ
    pub size : ℕ
    pub base : fl.F
    pub b : fl.F

  pub record Task : Type 0 where
    pub name : Bytes
    pub flow_fields : List Bytes
    pub flow_size : ℕ
    pub element_fields : List Bytes
    pub elem_size : ℕ
    pub sketch : SuperSpread fl.F × ℕ

  -- `New`
  unfoldable pub new_task : (ℕ → ℕ) → SketchTaskDef → Task
  new_task seed cfg = record {
    name = cfg.name;
    flow_fields = cfg.flow_fields;
    flow_size = u32 (fields_size cfg.flow_fields);
    element_fields = cfg.element_fields;
    elem_size = u32 (fields_size cfg.element_fields);
    sketch = (
      new_super_spread fl seed cfg.width cfg.depth cfg.count_threshold cfg.m cfg.size cfg.base cfg.b
          (u32 (fields_size cfg.flow_fields)),
      0,
    );
  }

  -- `ProcessPacket`, with the buffers that the two pools hand out; `none` is a panic.
  unfoldable pub process_packet : (ℕ → fl.F) → Task → Bytes → Bytes → PacketInfo → Option Task
  unfolding packet_keys
  process_packet rand t flow_buffer elem_buffer p = do
    (f, e) ←
        packet_keys t.flow_fields t.element_fields t.flow_size t.elem_size flow_buffer elem_buffer
          p.five_tuple
    some (record t { sketch = insert_flow fl rand t.sketch f e (u32 p.length) })

  -- `Query`, `Snapshot` and `Reset` pass on to the sketch.
  unfoldable pub task_query : Task → Bytes → ℕ
  task_query t flow = query fl t.sketch.0 flow

  unfoldable pub task_snapshot : Task → HeavyRecord
  task_snapshot t = heavy_hitters fl t.sketch.0

  unfoldable pub task_reset : Task → Task
  task_reset t = record t { sketch = (reset fl t.sketch.0, t.sketch.1) }
