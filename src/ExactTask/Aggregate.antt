-- ===== src/ExactTask/Aggregate.antt =====
-- The exact task against the packets that it was given: sharding cannot be seen, and every flow's
-- record sums up exactly its own packets.
use go2net_spectra.Base.{
  ℕ, zero, suc, ◌+◌, ◌%◌, ◌^◌, ◌≡◌, refl, ◌∙◌, arith, Bytes, bytes_eq, bytes_eq→eq, List, [], ◌∷◌,
  Option, none, some, length, get_or, replicate, if◌then◌else◌, Bool, false, Option-cases, inl, inr,
}
use go2net_spectra.Base.Dict.{lookup}
use go2net_spectra.Packet.{PacketInfo}
use go2net_spectra.ExactTask.{
  Flow, FieldValue, Task, new_task, add_packet, first_packet, process_packet,
  generate_key_and_fields,
}
use go2net_spectra.ExactTask.Shards.{
  IsValid, new_task-IsValid, next_flow, flow_of, process_packet-IsValid, flow_of-process_packet,
  flow_of-process_packet-none,
}

-- The bytes of a list of packets.
abbrev pub total_length : List PacketInfo → ℕ
total_length [] = 0
total_length (p ∷ ps) = p.length + total_length ps

-- The packet at the end of a list that is not empty.
abbrev pub oldest : PacketInfo → List PacketInfo → PacketInfo
oldest p [] = p
oldest p (q ∷ rest) = oldest q rest

module _ (ip_string : Bytes → Bytes) (key_fields : List Bytes) where
  -- Whether a packet makes the key.
  abbrev pub makes : Bytes → PacketInfo → Bool
  makes key p = elim (generate_key_and_fields ip_string key_fields p.five_tuple) [
    | none ↦ false
    | some (fields, k) ↦ bytes_eq k key
  ]

  abbrev pub fields_of : PacketInfo → List (Bytes × FieldValue)
  fields_of p = elim (generate_key_and_fields ip_string key_fields p.five_tuple) [
    | none ↦ []
    | some (fields, k) ↦ fields
  ]

  -- The packets of a key, the latest first.
  abbrev pub matching : Bytes → List PacketInfo → List PacketInfo
  matching key [] = []
  matching key (p ∷ past) = if makes key p then p ∷ matching key past else matching key past

  -- The record of a flow from its packets, the latest first.
  abbrev pub record_of : Bytes → List PacketInfo → Option Flow
  record_of key [] = none
  record_of key (p ∷ ps) = some (record {
    key = key;
    fields = fields_of (oldest p ps);
    start_time = (oldest p ps).timestamp;
    end_time = p.timestamp;
    byte_count = total_length (p ∷ ps) % 2 ^ 64;
    packet_count = length (p ∷ ps) % 2 ^ 64;
  })

  next_flow-record_of :
      (key : Bytes) (fields : List (Bytes × FieldValue)) (p : PacketInfo) (ps : List PacketInfo)
      → fields ≡ fields_of p
      → some (next_flow key fields p (record_of key ps)) ≡ record_of key (p ∷ ps)
  unfolding add_packet first_packet
  next_flow-record_of key fields p [] e = ground arith
  next_flow-record_of key fields p (q ∷ ps) e = ground arith

module _ (ip_string : Bytes → Bytes) (shard_hash : Bytes → ℕ) where
  -- The task after a history of packets, the latest first.
  abbrev pub after : Task → List PacketInfo → Task
  after t [] = t
  after t (p ∷ past) = process_packet ip_string shard_hash (after t past) p

  pub after-IsValid : (t : Task) (past : List PacketInfo) → IsValid t → IsValid (after t past)
  after-IsValid t [] v = v
  after-IsValid t (p ∷ past) v =
      process_packet-IsValid ip_string shard_hash (after t past) p (after-IsValid t past v)

  key_fields-process_packet :
      (t : Task) (p : PacketInfo)
      → (process_packet ip_string shard_hash t p).key_fields ≡ t.key_fields
  unfolding process_packet
  key_fields-process_packet t p =
      elim (Option-cases (generate_key_and_fields ip_string t.key_fields p.five_tuple)) [
        | inl e ↦ rw (e, process_packet) refl
        | inr ((fields, key), e) ↦ rw (e, process_packet) refl
      ]

  pub after-key_fields :
      (t : Task) (past : List PacketInfo) → (after t past).key_fields ≡ t.key_fields
  after-key_fields t [] = refl
  after-key_fields t (p ∷ past) =
      key_fields-process_packet (after t past) p ∙ after-key_fields t past

  lookup-empty :
      (n i : ℕ) (key : Bytes)
      → ◌≡◌ {A = Option Flow} (lookup key (get_or (replicate n []) i [])) none
  unfolding lookup
  lookup-empty zero i key = refl
  lookup-empty (suc n) zero key = refl
  lookup-empty (suc n) (suc i) key = lookup-empty n i key

  flow_of-new_task :
      (name : Bytes) (fs : List Bytes) (n : ℕ) (key : Bytes)
      → flow_of ip_string shard_hash (new_task name fs n) key ≡ none
  unfolding flow_of new_task
  flow_of-new_task name fs n key = lookup-empty (new_task name fs n).shard_count _ key

  pub key_fields-new_task :
      (name : Bytes) (fs : List Bytes) (n : ℕ) → (new_task name fs n).key_fields ≡ fs
  unfolding new_task
  key_fields-new_task name fs n = refl

  matched :
      (name : Bytes) (fs : List Bytes) (n : ℕ) (past : List PacketInfo) (p : PacketInfo)
      (fields : List (Bytes × FieldValue)) (k key : Bytes)
      → generate_key_and_fields ip_string fs p.five_tuple ≡ some (fields, k)
      → let t = after (new_task name fs n) past in
        flow_of ip_string shard_hash t key
          ≡ record_of ip_string fs key (matching ip_string fs key past)
        → (if bytes_eq k key
            then some (next_flow k fields p (flow_of ip_string shard_hash t k))
            else flow_of ip_string shard_hash t key)
          ≡ record_of ip_string fs key (matching ip_string fs key (p ∷ past))
  matched name fs n past p fields k key e ih =
      let made : fields ≡ fields_of ip_string fs p = ground (arith, e) in
      ground (
        arith,
        e,
        ih,
        bytes_eq→eq k key,
        next_flow-record_of ip_string fs key fields p (matching ip_string fs key past) made,
      )

  -- After any history of packets a new task holds, for every key, exactly the record of the packets
  -- that make that key: their number and their bytes modulo 2 ^ 64, the times of the first and of
  -- the last, and the fields of the first; and no flow for a key that no packet makes.
  pub flow_of-after :
      (name : Bytes) (fs : List Bytes) (n : ℕ) (past : List PacketInfo) (key : Bytes)
      → flow_of ip_string shard_hash (after (new_task name fs n) past) key
        ≡ record_of ip_string fs key (matching ip_string fs key past)
  flow_of-after name fs n [] key = flow_of-new_task name fs n key
  flow_of-after name fs n (p ∷ past) key =
      let t = after (new_task name fs n) past in
      let v = after-IsValid (new_task name fs n) past (new_task-IsValid name fs n) in
      let same : t.key_fields ≡ fs =
        after-key_fields (new_task name fs n) past ∙ key_fields-new_task name fs n in
      elim (Option-cases (generate_key_and_fields ip_string fs p.five_tuple)) [
        | inl e ↦
            flow_of-process_packet-none ip_string shard_hash t p key (rw same e)
            ∙ flow_of-after name fs n past key
            ∙ ground (arith, e)
        | inr ((fields, k), e) ↦
            flow_of-process_packet ip_string shard_hash t p fields k key v (rw same e)
            ∙ matched name fs n past p fields k key e (flow_of-after name fs n past key)
      ]
