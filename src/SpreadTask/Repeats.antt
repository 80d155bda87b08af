-- ===== src/SpreadTask/Repeats.antt =====
-- A spread task counts pairs of keys, not packets.
use go2net_spectra.Base.{
  ℕ, ◌≤◌, ◌≡◌, refl, ap, ◌∙◌, List, [], ◌∷◌, ◌++◌, map, Option, some, true, All,
}
use go2net_spectra.Murmur.{u32}
use go2net_spectra.SketchTask.{◌>>=◌, fields_size, max_field_size}
use go2net_spectra.SketchTask.Layout.{key_bytes}
use go2net_spectra.SketchTask.Arrivals.{Arrival, IsRegular, packet_keys_lem}
use go2net_spectra.HyperLogLog.{Floats}
use go2net_spectra.SuperSpread.{insert_flow}
use go2net_spectra.SuperSpread.Distinct.{Observation, after, repeated_observation_ignored}
use go2net_spectra.SpreadTask.{SketchTaskDef, Task, new_task, process_packet}

module _ (fl : Floats) (rand : ℕ → fl.F) where
  -- The task after its packets, the latest first; `none` once a packet has made it panic.
  abbrev pub processed : Task fl → List Arrival → Option (Task fl)
  processed t [] = some t
  processed t (a ∷ past) =
      processed t past >>= λ u. process_packet fl rand u a.flow_buffer a.elem_buffer a.packet

  -- What a packet is to the sketch.
  abbrev pub observation : SketchTaskDef fl → Arrival → Observation
  observation cfg a = record {
    flow = key_bytes cfg.flow_fields a.packet.five_tuple;
    elem = key_bytes cfg.element_fields a.packet.five_tuple;
    size = u32 a.packet.length;
  }

  -- The task whose sketch has seen the observations.
  abbrev seen : (ℕ → ℕ) → SketchTaskDef fl → List Observation → Task fl
  seen seed cfg past =
      let t = new_task fl seed cfg in record t { sketch = after fl rand t.sketch past }

  process_packet-seen :
      (seed : ℕ → ℕ) (cfg : SketchTaskDef fl) (past : List Observation) (a : Arrival)
      → fields_size cfg.flow_fields ≤ max_field_size
      → fields_size cfg.element_fields ≤ max_field_size
      → IsRegular a
      → process_packet fl rand (seen seed cfg past) a.flow_buffer a.elem_buffer a.packet
        ≡ some (seen seed cfg (observation cfg a ∷ past))
  unfolding process_packet new_task
  process_packet-seen seed cfg past a hf he r =
      rw (packet_keys_lem cfg.flow_fields cfg.element_fields a hf he r, ◌>>=◌) refl

  processed-seen :
      (seed : ℕ → ℕ) (cfg : SketchTaskDef fl) (past : List Arrival)
      → fields_size cfg.flow_fields ≤ max_field_size
      → fields_size cfg.element_fields ≤ max_field_size
      → All IsRegular past
      → processed (new_task fl seed cfg) past ≡ some (seen seed cfg (map (observation cfg) past))
  processed-seen seed cfg [] hf he r = refl
  processed-seen seed cfg (a ∷ past) hf he (r, rs) =
      rw (processed-seen seed cfg past hf he rs, ◌>>=◌)
        (process_packet-seen seed cfg (map (observation cfg) past) a hf he r)

  map-append :
      (cfg : SketchTaskDef fl) (xs ys : List Arrival)
      → map (observation cfg) (xs ++ ys) ≡ map (observation cfg) xs ++ map (observation cfg) ys
  map-append cfg [] ys = refl
  map-append cfg (x ∷ xs) ys = ap (λ l. observation cfg x ∷ l) (map-append cfg xs ys)

  -- A spread task whose keys fit the pooled buffers never panics on packets with 16-byte addresses;
  -- and a packet with the same two keys as one that came before, at any point of the history, leaves
  -- the whole task as it was. The comparison of floats is taken to find -1 equal to itself.
  pub repeated_packet_ignored :
      (seed : ℕ → ℕ) (cfg : SketchTaskDef fl) (later : List Arrival) (o : Arrival)
      (past : List Arrival) (a : Arrival)
      → fl.eq fl.minus_one fl.minus_one ≡ true
      → fields_size cfg.flow_fields ≤ max_field_size
      → fields_size cfg.element_fields ≤ max_field_size
      → All IsRegular (later ++ o ∷ past)
      → IsRegular a
      → key_bytes cfg.flow_fields a.packet.five_tuple
        ≡ key_bytes cfg.flow_fields o.packet.five_tuple
      → key_bytes cfg.element_fields a.packet.five_tuple
        ≡ key_bytes cfg.element_fields o.packet.five_tuple
      → (t : Task fl) × (processed (new_task fl seed cfg) (later ++ o ∷ past) ≡ some t)
        × (process_packet fl rand t a.flow_buffer a.elem_buffer a.packet ≡ some t)
  unfolding new_task
  repeated_packet_ignored seed cfg later o past a same hf he rs r flow elem =
      let history = map (observation cfg) (later ++ o ∷ past) in
      let split = map-append cfg later (o ∷ past) in
      let first = (new_task fl seed cfg).sketch in
      let still =
        repeated_observation_ignored fl seed rand cfg.width cfg.depth cfg.count_threshold cfg.m
          cfg.size cfg.base cfg.b (u32 (fields_size cfg.flow_fields)) (map (observation cfg) later)
          (observation cfg o) (map (observation cfg) past) (u32 a.packet.length) same in
      let again : (h : List Observation)
          → h ≡ map (observation cfg) later ++ observation cfg o ∷ map (observation cfg) past
          → insert_flow fl rand (after fl rand first h)
              (key_bytes cfg.flow_fields a.packet.five_tuple)
              (key_bytes cfg.element_fields a.packet.five_tuple) (u32 a.packet.length)
            ≡ after fl rand first h =
        λ h e. rw (flow, elem, e) still in
      let t = seen seed cfg history in
      (
        t,
        processed-seen seed cfg (later ++ o ∷ past) hf he rs,
        process_packet-seen seed cfg history a hf he r
            ∙ ap (λ k. some (record t { sketch = k })) (again history split),
      )
