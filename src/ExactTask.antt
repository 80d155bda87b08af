-- ===== src/ExactTask.antt =====
-- The exact aggregation task: internal/engine/impl/exact/task.go and exact/statistic/flow.go.
-- `ip_string` is `net.IP.String`, and `shard_hash` is `maphash.String` under the task's seed. A
-- packet's `Length` is its 64-bit pattern, which the conversion to `uint64` keeps.
pub mod Shards
pub mod Aggregate
pub mod Lookup
pub mod Restart
pub mod Totals
mod Tests
use go2net_spectra.Base.{
  ℕ, zero, suc, ◌+◌, ◌*◌, ◌%◌, ◌^◌, bit_or, Bytes, text, join, itoa, List, [], ◌∷◌, map, Option,
  none, some, length, get_elem?, get_or, set, replicate, ◌==◌, leb, ◌||◌, if◌then◌else◌,
}
use go2net_spectra.Base.Dict.{lookup, insert}
use go2net_spectra.Packet.{
  FiveTuple, PacketInfo, FieldKind, field_kind, src_ip, dst_ip, src_port, dst_port, protocol,
  unknown,
}
use go2net_spectra.SketchTask.{
  ◌>>=◌, slice, uint16, ipv6_byte_size, port_byte_size, proto_byte_size,
}

abbrev pub u64 : ℕ → ℕ
u64 x = x % 2 ^ 64

-- The values in `Flow.Fields`.
pub data FieldValue : Type 0 where
  str : Bytes → FieldValue
  num : ℕ → FieldValue

pub record Flow : Type 0 where
  pub key : Bytes
  pub fields : List (Bytes × FieldValue)
  pub start_time : ℕ
  pub end_time : ℕ
  pub byte_count : ℕ
  pub packet_count : ℕ

-- `Shard`, less its mutex.
abbrev pub Shard : Type 0
Shard = List (Bytes × Flow)

pub record Task : Type 0 where
  pub name : Bytes
  pub key_fields : List Bytes
  pub shards : List Shard
  pub shard_count : ℕ

pub record SnapshotData : Type 0 where
  pub task_name : Bytes
  pub shards : List Shard

abbrev pub default_shard_count : ℕ
default_shard_count = 256

unfoldable pub new_task : Bytes → List Bytes → ℕ → Task
new_task name key_fields num_shards =
    let n = if num_shards == 0 || leb 32768 num_shards then default_shard_count else num_shards in
    record { name = name; key_fields = key_fields; shards = replicate n []; shard_count = n }

-- A flow's next packet, and its first.
unfoldable pub add_packet : Flow → PacketInfo → Flow
add_packet f p = record f {
  end_time = p.timestamp;
  packet_count = u64 (f.packet_count + 1);
  byte_count = u64 (f.byte_count + p.length);
}

unfoldable pub first_packet : Bytes → List (Bytes × FieldValue) → PacketInfo → Flow
first_packet key fields p = record {
  key = key;
  fields = fields;
  start_time = p.timestamp;
  end_time = p.timestamp;
  packet_count = 1;
  byte_count = u64 p.length;
}

unfoldable pub update_shard : Bytes → List (Bytes × FieldValue) → PacketInfo → Shard → Shard
unfolding add_packet first_packet
update_shard key fields p shard = elim (lookup key shard) [
  | some f ↦ insert key (add_packet f p) shard
  | none ↦ insert key (first_packet key fields p) shard
]

-- `Snapshot` copies every flow, so the result is a value of its own.
unfoldable pub snapshot : Task → SnapshotData
snapshot t = record { task_name = t.name; shards = t.shards }

unfoldable pub reset : Task → Task
reset t = record t { shards = map (λ _. []) t.shards }

-- The three totals of `AlerterMsg`, over the flows of the snapshot: packets, bytes and flows.
unfoldable pub shard_totals : Shard → ℕ × ℕ × ℕ → ℕ × ℕ × ℕ
shard_totals [] acc = acc
shard_totals ((k, f) ∷ shard) (packets, bytes, flows) =
    shard_totals shard (u64 (packets + f.packet_count), u64 (bytes + f.byte_count), flows + 1)

unfoldable pub totals : List Shard → ℕ × ℕ × ℕ → ℕ × ℕ × ℕ
unfolding shard_totals
totals [] acc = acc
totals (s ∷ shards) acc = totals shards (shard_totals s acc)

-- How the loop of `Query` ends: with a value, with `return 0`, or in an index out of range.
pub data Outcome {ℓ} (A : Type ℓ) : Type ℓ where
  done : A → Outcome A
  unsupported : Outcome A
  panic : Outcome A

abbrev pub or_panic {ℓ} : {A : Type ℓ} → Option A → Outcome A
or_panic none = panic
or_panic (some a) = done a

abbrev pub and_then {ℓ κ} : {A : Type ℓ} {B : Type κ} → Outcome A → (A → Outcome B) → Outcome B
and_then (done a) f = f a
and_then unsupported f = unsupported
and_then panic f = panic

-- `uint16(flow[index])<<8 | uint16(flow[index+1])`
unfoldable pub query_port : Bytes → ℕ → Option (Bytes × ℕ)
query_port flow i = do
  a ← get_elem? flow i
  b ← get_elem? flow (i + 1)
  some (itoa (bit_or (a * 2 ^ 8) b), i + port_byte_size)

-- One round of the loop of `Query`: the part and the next index.
unfoldable pub query_part : (Bytes → Bytes) → Bytes → ℕ → FieldKind → Outcome (Bytes × ℕ)
unfolding slice query_port
query_part ip_string flow i src_ip =
    or_panic (do s ← slice flow i ipv6_byte_size; some (ip_string s, i + ipv6_byte_size))
query_part ip_string flow i dst_ip =
    or_panic (do s ← slice flow i ipv6_byte_size; some (ip_string s, i + ipv6_byte_size))
query_part ip_string flow i src_port = or_panic (query_port flow i)
query_part ip_string flow i dst_port = or_panic (query_port flow i)
query_part ip_string flow i protocol =
    or_panic (do v ← get_elem? flow i; some (itoa v, i + proto_byte_size))
query_part ip_string flow i unknown = unsupported

unfoldable pub query_parts : (Bytes → Bytes) → Bytes → ℕ → List Bytes → Outcome (List Bytes)
unfolding query_part
query_parts ip_string flow i [] = done []
query_parts ip_string flow i (f ∷ fs) =
    and_then (query_part ip_string flow i (field_kind f))
      λ here. and_then (query_parts ip_string flow here.1 fs) λ rest. done (here.0 ∷ rest)

module _ (ip_string : Bytes → Bytes) where
  -- One round of the loop of `generateKeyAndFields`; `none` is the error for an unknown field.
  unfoldable pub key_part : FieldKind → FiveTuple → Option (FieldValue × Bytes)
  key_part src_ip ft = some (str (ip_string ft.src_ip), ip_string ft.src_ip)
  key_part dst_ip ft = some (str (ip_string ft.dst_ip), ip_string ft.dst_ip)
  key_part src_port ft = some (num ft.src_port, itoa ft.src_port)
  key_part dst_port ft = some (num ft.dst_port, itoa ft.dst_port)
  key_part protocol ft = some (num ft.protocol, itoa ft.protocol)
  key_part unknown ft = none

  unfoldable pub key_parts :
      List Bytes
      → FiveTuple
      → List (Bytes × FieldValue)
      → Option (List (Bytes × FieldValue) × List Bytes)
  unfolding key_part
  key_parts [] ft fields = some (fields, [])
  key_parts (f ∷ fs) ft fields = do
    (v, part) ← key_part (field_kind f) ft
    (fields', parts) ← key_parts fs ft (insert f v fields)
    some (fields', part ∷ parts)

  unfoldable pub generate_key_and_fields :
      List Bytes → FiveTuple → Option (List (Bytes × FieldValue) × Bytes)
  unfolding key_parts
  generate_key_and_fields key_fields ft = do
    (fields, parts) ← key_parts key_fields ft []
    some (fields, join parts (text "-"))

  -- `getShard`: the index of the shard of a key.
  module _ (shard_hash : Bytes → ℕ) where
    unfoldable pub shard_index : ℕ → Bytes → ℕ
    shard_index count key = shard_hash key % 2 ^ 32 % count

    -- `ProcessPacket`: a packet whose key cannot be made is logged and dropped.
    unfoldable pub process_packet : Task → PacketInfo → Task
    unfolding shard_index generate_key_and_fields update_shard
    process_packet t p = elim (generate_key_and_fields t.key_fields p.five_tuple) [
      | none ↦ t
      | some (fields, key) ↦
          let i = shard_index t.shard_count key in
          record t { shards = set t.shards i (update_shard key fields p (get_or t.shards i [])) }
    ]

    -- `Query`; `none` is a panic.
    unfoldable pub query : Task → Bytes → Option ℕ
    unfolding shard_index
    query t flow = elim (query_parts ip_string flow 0 t.key_fields) [
      | panic ↦ none
      | unsupported ↦ some 0
      | done parts ↦
          let key = join parts (text "-") in
          elim (lookup key (get_or t.shards (shard_index t.shard_count key) [])) [
            | none ↦ some 0
            | some f ↦ some (bit_or (u64 (f.packet_count * 2 ^ 32)) f.byte_count)
          ]
    ]
