-- ===== src/ExactTask/Restart.antt =====
-- `Reset` between two periods: the task starts over.
use go2net_spectra.Base.{
  ℕ, zero, suc, ◌≡◌, refl, ap, ◌∙◌, Bytes, List, [], ◌∷◌, map, set, replicate, Option-cases, inl,
  inr,
}
use go2net_spectra.Packet.{PacketInfo}
use go2net_spectra.ExactTask.{Shard, Task, new_task, process_packet, reset, generate_key_and_fields}
use go2net_spectra.ExactTask.Shards.{flow_of}
use go2net_spectra.ExactTask.Aggregate.{after, matching, record_of, flow_of-after}

abbrev emptied : List Shard → List Shard
emptied shards = map (λ _. []) shards

emptied-set : (shards : List Shard) (i : ℕ) (s : Shard) → emptied (set shards i s) ≡ emptied shards
emptied-set [] i s = refl
emptied-set (x ∷ shards) zero s = refl
emptied-set (x ∷ shards) (suc i) s = ap (λ (r : List Shard). [] ∷ r) (emptied-set shards i s)

emptied-replicate : (n : ℕ) → emptied (replicate n []) ≡ replicate n []
emptied-replicate zero = refl
emptied-replicate (suc n) = ap (λ (r : List Shard). [] ∷ r) (emptied-replicate n)

reset-new_task :
    (name : Bytes) (fs : List Bytes) (n : ℕ) → reset (new_task name fs n) ≡ new_task name fs n
unfolding reset new_task
reset-new_task name fs n =
    ap (λ (r : List Shard). record (new_task name fs n) { shards = r }) (emptied-replicate _)

module _ (ip_string : Bytes → Bytes) (shard_hash : Bytes → ℕ) where
  reset-process_packet :
      (t : Task) (p : PacketInfo) → reset (process_packet ip_string shard_hash t p) ≡ reset t
  unfolding reset process_packet
  reset-process_packet t p =
      elim (Option-cases (generate_key_and_fields ip_string t.key_fields p.five_tuple)) [
        | inl e ↦ rw (e, process_packet) refl
        | inr (k, e) ↦
            rw (e, process_packet)
              (ap (λ (r : List Shard). record t { shards = r }) (emptied-set t.shards _ _))
      ]

  reset-after :
      (t : Task) (past : List PacketInfo) → reset (after ip_string shard_hash t past) ≡ reset t
  reset-after t [] = refl
  reset-after t (p ∷ past) =
      reset-process_packet (after ip_string shard_hash t past) p ∙ reset-after t past

  -- After a period of packets, a `Reset` and further packets, a task holds for every key exactly the
  -- record of the further packets that make that key: nothing of the period before is left.
  pub flow_of_restarted :
      (name : Bytes) (fs : List Bytes) (n : ℕ) (past later : List PacketInfo) (key : Bytes)
      → flow_of ip_string shard_hash
          (after ip_string shard_hash
            (reset (after ip_string shard_hash (new_task name fs n) past))
            later)
          key
        ≡ record_of ip_string fs key (matching ip_string fs key later)
  flow_of_restarted name fs n past later key =
      ap (λ (t : Task). flow_of ip_string shard_hash (after ip_string shard_hash t later) key)
        (reset-after (new_task name fs n) past ∙ reset-new_task name fs n)
      ∙ flow_of-after ip_string shard_hash name fs n later key
