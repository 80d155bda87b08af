-- ===== src/CountTask/Counts.antt =====
-- From packets to estimates: what a count-min task answers about the packets that it processed.
use go2net_spectra.Base.{
  ℕ, ◌/◌, ◌%◌, ◌^◌, ◌≤◌, ◌≡◌, refl, arith, Bytes, List, [], ◌∷◌, map, Option, some, All,
}
use go2net_spectra.Murmur.{u32}
use go2net_spectra.SketchTask.{◌>>=◌, fields_size, max_field_size}
use go2net_spectra.SketchTask.Layout.{key_bytes}
use go2net_spectra.SketchTask.Arrivals.{Arrival, IsRegular, length-key_bytes, packet_keys_lem}
use go2net_spectra.CountMin.History.{Observation, after, Fits, occurrences, total_size}
use go2net_spectra.CountMin.Upper.{query_never_overestimates}
use go2net_spectra.CountTask.{SketchTaskDef, Task, new_task, process_packet, task_query}

-- The task after its packets, the latest first; `none` once a packet has made it panic.
abbrev pub processed : Task → List Arrival → Option Task
processed t [] = some t
processed t (a ∷ past) =
    processed t past >>= λ u. process_packet u a.flow_buffer a.elem_buffer a.packet

-- What a packet is to the sketch.
abbrev pub observation : SketchTaskDef → Arrival → Observation
observation cfg a = record {
  flow = key_bytes cfg.flow_fields a.packet.five_tuple;
  elem = key_bytes cfg.element_fields a.packet.five_tuple;
  size = u32 a.packet.length;
}

-- The task whose sketch has seen the observations.
abbrev seen : (ℕ → ℕ) → SketchTaskDef → List Observation → Task
seen rand cfg past = let t = new_task rand cfg in record t { sketch = after t.sketch past }

process_packet-seen :
    (rand : ℕ → ℕ) (cfg : SketchTaskDef) (past : List Observation) (a : Arrival)
    → fields_size cfg.flow_fields ≤ max_field_size
    → fields_size cfg.element_fields ≤ max_field_size
    → IsRegular a
    → process_packet (seen rand cfg past) a.flow_buffer a.elem_buffer a.packet
      ≡ some (seen rand cfg (observation cfg a ∷ past))
unfolding process_packet new_task
process_packet-seen rand cfg past a hf he r =
    rw (packet_keys_lem cfg.flow_fields cfg.element_fields a hf he r, ◌>>=◌) refl

processed-seen :
    (rand : ℕ → ℕ) (cfg : SketchTaskDef) (past : List Arrival)
    → fields_size cfg.flow_fields ≤ max_field_size
    → fields_size cfg.element_fields ≤ max_field_size
    → All IsRegular past
    → processed (new_task rand cfg) past ≡ some (seen rand cfg (map (observation cfg) past))
processed-seen rand cfg [] hf he r = refl
processed-seen rand cfg (a ∷ past) hf he (r, rs) =
    rw (processed-seen rand cfg past hf he rs, ◌>>=◌)
      (process_packet-seen rand cfg (map (observation cfg) past) a hf he r)

observations-Fits :
    (cfg : SketchTaskDef) (past : List Arrival)
    → fields_size cfg.flow_fields ≤ max_field_size
    → All IsRegular past
    → All (Fits (u32 (fields_size cfg.flow_fields))) (map (observation cfg) past)
observations-Fits cfg [] hf r = tt
observations-Fits cfg (a ∷ past) hf (r, rs) = (
  omega (arith, length-key_bytes cfg.flow_fields a.packet.five_tuple r.wide, hf),
  observations-Fits cfg past hf rs,
)

-- A count-min task whose keys fit the pooled buffers never panics on packets with 16-byte addresses,
-- whatever the buffers held; and its `Query` for any key is at most the number of the packets with
-- that key in the high word, and at most the sum of their 32-bit lengths in the low word.
pub processed_never_overestimates :
    (rand : ℕ → ℕ) (cfg : SketchTaskDef) (past : List Arrival) (key : Bytes)
    → fields_size cfg.flow_fields ≤ max_field_size
    → fields_size cfg.element_fields ≤ max_field_size
    → All IsRegular past
    → (t : Task) × (processed (new_task rand cfg) past ≡ some t)
      × (task_query t key / 2 ^ 32 ≤ occurrences key (map (observation cfg) past))
      × (task_query t key % 2 ^ 32 ≤ total_size key (map (observation cfg) past))
unfolding task_query new_task
processed_never_overestimates rand cfg past key hf he r =
    let o = map (observation cfg) past in
    let (count, bytes) =
      query_never_overestimates rand cfg.width cfg.depth cfg.size_threshold cfg.count_threshold
        (u32 (fields_size cfg.flow_fields)) o key (observations-Fits cfg past hf r) in
    (seen rand cfg o, processed-seen rand cfg past hf he r, count, bytes)
