-- ===== src/CountTask.antt =====
-- The sketch task over a count-min sketch: internal/engine/impl/sketch/task.go, with the sketch type
-- 0. A pooled buffer is given by all the bytes of its capacity.
pub mod Counts
mod Tests
use go2net_spectra.Base.{ℕ, Bytes, List, [], ◌∷◌, Option, none, some}
use go2net_spectra.Packet.{PacketInfo}
use go2net_spectra.Murmur.{u32}
use go2net_spectra.SketchTask.{◌>>=◌, fields_size, packet_keys}
use go2net_spectra.CountMin.{
  CountMin, HeavyRecord, new_count_min, insert_flow, query, heavy_hitters, reset,
}

-- The fields of `SketchTaskDef` that a count-min task reads.
pub record SketchTaskDef : Type 0 where
  pub name : Bytes
  pub flow_fields : List Bytes
  pub element_fields : List Bytes
  pub width : ℕ
  pub depth : ℕ
  pub size_threshold : ℕ
  pub count_threshold : ℕ

pub record Task : Type 0 where
  pub name : Bytes
  pub flow_fields : List Bytes
  pub flow_size : ℕ
  pub element_fields : List Bytes
  pub elem_size : ℕ
  pub sketch : CountMin

-- `New`
unfoldable pub new_task : (ℕ → ℕ) → SketchTaskDef → Task
new_task rand cfg = record {
  name = cfg.name;
  flow_fields = cfg.flow_fields;
  flow_size = u32 (fields_size cfg.flow_fields);
  element_fields = cfg.element_fields;
  elem_size = u32 (fields_size cfg.element_fields);
  sketch =
      new_count_min rand cfg.width cfg.depth cfg.size_threshold cfg.count_threshold
        (u32 (fields_size cfg.flow_fields));
}

-- `ProcessPacket`, with the buffers that the two pools hand out; `none` is a panic.
unfoldable pub process_packet : Task → Bytes → Bytes → PacketInfo → Option Task
unfolding packet_keys
process_packet t flow_buffer elem_buffer p = do
  (f, e) ←
      packet_keys t.flow_fields t.element_fields t.flow_size t.elem_size flow_buffer elem_buffer
        p.five_tuple
  some (record t { sketch = insert_flow t.sketch f e (u32 p.length) })

-- `Query`, `Snapshot` and `Reset` pass on to the sketch.
unfoldable pub task_query : Task → Bytes → ℕ
task_query t flow = query t.sketch flow

unfoldable pub task_snapshot : Task → HeavyRecord
task_snapshot t = heavy_hitters t.sketch

unfoldable pub task_reset : Task → Task
task_reset t = record t { sketch = reset t.sketch }
