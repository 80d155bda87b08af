-- ===== src/ExactTask/Shards.antt =====
-- The shards together are one map: what `ProcessPacket` does to the entry of a key.
use go2net_spectra.Base.{
  ℕ, ◌<◌, ◌≡◌, ◌≢◌, refl, ap, ◌∙◌, arith, Bytes, bytes_eq, bytes_eq→eq, List, [], Option, none,
  some, length, get_or, set, length-set, length-replicate, get_or-set_self, get_or-set_ne,
  if◌then◌else◌, Bool-cases, false, inl, inr, Option-cases,
}
use native.Mathlib.Decide.{ℕ_discrete}
use go2net_spectra.Base.Dict.{lookup, lookup-insert}
use go2net_spectra.Packet.{PacketInfo}
use go2net_spectra.ExactTask.{
  Flow, FieldValue, Shard, Task, new_task, update_shard, add_packet, first_packet, shard_index,
  process_packet, generate_key_and_fields,
}

pub record IsValid (t : Task) : Type 0 where
  pub some_shard : 0 < t.shard_count
  pub all_shards : length t.shards ≡ t.shard_count

-- `New` makes at least one shard, whatever it is asked for.
pub new_task-IsValid : (name : Bytes) (fs : List Bytes) (n : ℕ) → IsValid (new_task name fs n)
unfolding new_task
new_task-IsValid name fs n = record { some_shard = ground arith; all_shards = length-replicate _ _ }

-- What a packet makes of a flow's entry.
abbrev pub next_flow : Bytes → List (Bytes × FieldValue) → PacketInfo → Option Flow → Flow
next_flow key fields p none = first_packet key fields p
next_flow key fields p (some f) = add_packet f p

lookup-update_shard :
    (key j : Bytes) (fields : List (Bytes × FieldValue)) (p : PacketInfo) (s : Shard)
    → lookup j (update_shard key fields p s)
      ≡ (if bytes_eq key j then some (next_flow key fields p (lookup key s)) else lookup j s)
unfolding update_shard
lookup-update_shard key j fields p s = elim (Option-cases (lookup key s)) [
  | inl e ↦ rw (e, update_shard) (lookup-insert key j (first_packet key fields p) s)
  | inr (f, e) ↦ rw (e, update_shard) (lookup-insert key j (add_packet f p) s)
]

module _ (ip_string : Bytes → Bytes) (shard_hash : Bytes → ℕ) where
  abbrev pub shard_of : Task → Bytes → ℕ
  shard_of t key = shard_index ip_string shard_hash t.shard_count key

  -- The flow that the task holds for a key.
  unfoldable pub flow_of : Task → Bytes → Option Flow
  flow_of t key = lookup key (get_or t.shards (shard_of t key) [])

  pub shard_index-lt : (n : ℕ) (key : Bytes) → 0 < n → shard_index ip_string shard_hash n key < n
  unfolding shard_index
  shard_index-lt n key h = omega arith

  pub process_packet-none :
      (t : Task) (p : PacketInfo)
      → generate_key_and_fields ip_string t.key_fields p.five_tuple ≡ none
      → process_packet ip_string shard_hash t p ≡ t
  unfolding process_packet
  process_packet-none t p e = rw (e, process_packet) refl

  pub process_packet-some :
      (t : Task) (p : PacketInfo) (fields : List (Bytes × FieldValue)) (key : Bytes)
      → generate_key_and_fields ip_string t.key_fields p.five_tuple ≡ some (fields, key)
      → process_packet ip_string shard_hash t p ≡ record t {
        shards =
            set t.shards
              (shard_of t key)
              (update_shard key fields p (get_or t.shards (shard_of t key) []));
      }
  unfolding process_packet
  process_packet-some t p fields key e = rw (e, process_packet) refl

  pub process_packet-IsValid :
      (t : Task) (p : PacketInfo) → IsValid t → IsValid (process_packet ip_string shard_hash t p)
  process_packet-IsValid t p v =
      elim (Option-cases (generate_key_and_fields ip_string t.key_fields p.five_tuple)) [
        | inl e ↦ rw (process_packet-none t p e) v
        | inr ((fields, key), e) ↦ rw (process_packet-some t p fields key e) (record {
          some_shard = v.some_shard;
          all_shards = length-set t.shards (shard_of t key) _ ∙ v.all_shards;
        })
      ]

  -- A packet that makes no key changes no flow.
  pub flow_of-process_packet-none :
      (t : Task) (p : PacketInfo) (j : Bytes)
      → generate_key_and_fields ip_string t.key_fields p.five_tuple ≡ none
      → flow_of (process_packet ip_string shard_hash t p) j ≡ flow_of t j
  flow_of-process_packet-none t p j e = rw (process_packet-none t p e)

  -- A packet changes the flow of its own key alone.
  pub flow_of-process_packet :
      (t : Task) (p : PacketInfo) (fields : List (Bytes × FieldValue)) (key j : Bytes)
      → IsValid t
      → generate_key_and_fields ip_string t.key_fields p.five_tuple ≡ some (fields, key)
      → flow_of (process_packet ip_string shard_hash t p) j
        ≡ (if bytes_eq key j then some (next_flow key fields p (flow_of t key)) else flow_of t j)
  unfolding flow_of
  flow_of-process_packet t p fields key j v e =
      rw (process_packet-some t p fields key e) (elim (ℕ_discrete (shard_of t key) (shard_of t j)) [
        | yes same ↦ rw (← same) (
            rw (get_or-set_self t.shards (shard_of t key) _ [] below)
              (lookup-update_shard key j fields p (get_or t.shards (shard_of t key) [])))
        | no apart ↦ rw (
          get_or-set_ne t.shards (shard_of t key) (shard_of t j)
              (update_shard key fields p (get_or t.shards (shard_of t key) [])) [] apart,
          differ apart,
        )
      ])
    where
      below : shard_of t key < length t.shards
      below = omega (arith, shard_index-lt t.shard_count key v.some_shard, v.all_shards)

      differ : shard_of t key ≢ shard_of t j → bytes_eq key j ≡ false
      differ apart = elim (Bool-cases (bytes_eq key j)) [
        | inl same ↦ absurd (apart (ap (shard_of t) (bytes_eq→eq key j same)))
        | inr other ↦ other
      ]
