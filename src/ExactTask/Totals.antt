-- ===== src/ExactTask/Totals.antt =====
-- The totals that the alerts compare are those of the traffic.
use go2net_spectra.Base.{
  ℕ, zero, suc, ◌+◌, ◌%◌, ◌^◌, ◌<◌, ◌≡◌, refl, ap, sym, ◌∙◌, arith, Bytes, bytes_eq, List, [], ◌∷◌,
  none, some, length, get_or, set, replicate, Bool-cases, Option-cases, inl, inr,
}
use go2net_spectra.Base.Dict.{lookup, insert}
use go2net_spectra.Packet.{PacketInfo}
use go2net_spectra.ExactTask.{
  Flow, FieldValue, Shard, Task, u64, new_task, update_shard, add_packet, first_packet,
  shard_totals, totals, process_packet, generate_key_and_fields,
}
use go2net_spectra.ExactTask.Shards.{
  IsValid, new_task-IsValid, process_packet-none, process_packet-some, shard_of, shard_index-lt,
}
use go2net_spectra.ExactTask.Aggregate.{
  total_length, after, after-IsValid, after-key_fields, key_fields-new_task,
}

-- The sum of a measure over the flows of a shard, and of all shards, without wrap-around.
module _ (m : Flow → ℕ) where
  abbrev pub shard_sum : Shard → ℕ
  shard_sum [] = 0
  shard_sum ((k, f) ∷ s) = m f + shard_sum s

  abbrev pub task_sum : List Shard → ℕ
  task_sum [] = 0
  task_sum (s ∷ shards) = shard_sum s + task_sum shards

  shard_sum-insert_old :
      (k : Bytes) (f g : Flow) (s : Shard)
      → lookup k s ≡ some f
      → shard_sum (insert k g s) + m f ≡ shard_sum s + m g
  unfolding lookup insert
  shard_sum-insert_old k f g [] e = cc e
  shard_sum-insert_old k f g ((j, h) ∷ s) e = elim (Bool-cases (bytes_eq j k)) [
    | inl same ↦ let here' : h ≡ f = ground (arith, e, same) in ground (arith, same, ap m here')
    | inr other ↦
        let ih = shard_sum-insert_old k f g s (ground (arith, e, other)) in
        ground (arith, other, ih)
  ]

  shard_sum-insert_new :
      (k : Bytes) (g : Flow) (s : Shard)
      → lookup k s ≡ none
      → shard_sum (insert k g s) ≡ shard_sum s + m g
  unfolding lookup insert
  shard_sum-insert_new k g [] e = omega arith
  shard_sum-insert_new k g ((j, h) ∷ s) e = elim (Bool-cases (bytes_eq j k)) [
    | inl same ↦ absurd (ground (arith, e, same))
    | inr other ↦
        let ih = shard_sum-insert_new k g s (ground (arith, e, other)) in ground (arith, other, ih)
  ]

  task_sum-set :
      (shards : List Shard) (i : ℕ) (s : Shard)
      → i < length shards
      → task_sum (set shards i s) + shard_sum (get_or shards i []) ≡ task_sum shards + shard_sum s
  task_sum-set [] i s h = absurd (omega arith)
  task_sum-set (x ∷ shards) zero s h = omega arith
  task_sum-set (x ∷ shards) (suc i) s h =
      let ih = task_sum-set shards i s (omega arith) in omega (arith, ih)

  task_sum-replicate : (n : ℕ) → task_sum (replicate n []) ≡ 0
  task_sum-replicate zero = refl
  task_sum-replicate (suc n) = omega (arith, task_sum-replicate n)

abbrev packets_of : Flow → ℕ
packets_of f = f.packet_count

abbrev bytes_of : Flow → ℕ
bytes_of f = f.byte_count

shard_totals_lem :
    (s : Shard) (x y n : ℕ)
    → shard_totals s (u64 x, u64 y, n)
      ≡ (u64 (x + shard_sum packets_of s), u64 (y + shard_sum bytes_of s), n + length s)
unfolding shard_totals
shard_totals_lem [] x y n = ground arith
shard_totals_lem ((k, f) ∷ s) x y n =
    let a : u64 (u64 x + f.packet_count) ≡ u64 (x + f.packet_count) = omega arith in
    let b : u64 (u64 y + f.byte_count) ≡ u64 (y + f.byte_count) = omega arith in
    let ih = shard_totals_lem s (x + f.packet_count) (y + f.byte_count) (n + 1) in
    ground (arith, a, b, ih)

flows_sum : List Shard → ℕ
flows_sum [] = 0
flows_sum (s ∷ shards) = length s + flows_sum shards

totals_lem :
    (shards : List Shard) (x y n : ℕ)
    → totals shards (u64 x, u64 y, n) ≡ (
      u64 (x + task_sum packets_of shards),
      u64 (y + task_sum bytes_of shards),
      n + flows_sum shards,
    )
unfolding totals flows_sum
totals_lem [] x y n = ground arith
totals_lem (s ∷ shards) x y n =
    let ih =
      totals_lem shards (x + shard_sum packets_of s) (y + shard_sum bytes_of s) (n + length s) in
    ap (totals shards) (shard_totals_lem s x y n) ∙ ground (arith, ih)

-- What one packet adds to its shard, ...
update_shard_lem :
    (key : Bytes) (fields : List (Bytes × FieldValue)) (p : PacketInfo) (s : Shard)
    → (u64 (shard_sum packets_of (update_shard key fields p s)) ≡ u64 (shard_sum packets_of s + 1))
      × (u64 (shard_sum bytes_of (update_shard key fields p s))
          ≡ u64 (shard_sum bytes_of s + p.length))
unfolding update_shard add_packet first_packet
update_shard_lem key fields p s = elim (Option-cases (lookup key s)) [
  | inl e ↦
      let g = first_packet key fields p in
      let a = shard_sum-insert_new packets_of key g s e in
      let b = shard_sum-insert_new bytes_of key g s e in ground (arith, e, a, b)
  | inr (f, e) ↦
      let g = add_packet f p in
      let a = shard_sum-insert_old packets_of key f g s e in
      let b = shard_sum-insert_old bytes_of key f g s e in ground (arith, e, a, b)
]

-- The packets that make a key.
abbrev pub keyed : (Bytes → Bytes) → List Bytes → List PacketInfo → List PacketInfo
keyed ip_string fs [] = []
keyed ip_string fs (p ∷ past) = elim (generate_key_and_fields ip_string fs p.five_tuple) [
  | none ↦ keyed ip_string fs past
  | some made ↦ p ∷ keyed ip_string fs past
]

module _ (ip_string : Bytes → Bytes) (shard_hash : Bytes → ℕ) where
  -- ... and to the task.
  process_packet-sums :
      (t : Task) (p : PacketInfo) (fields : List (Bytes × FieldValue)) (key : Bytes)
      → IsValid t
      → generate_key_and_fields ip_string t.key_fields p.five_tuple ≡ some (fields, key)
      → let shards = (process_packet ip_string shard_hash t p).shards in
        (u64 (task_sum packets_of shards) ≡ u64 (task_sum packets_of t.shards + 1))
        × (u64 (task_sum bytes_of shards) ≡ u64 (task_sum bytes_of t.shards + p.length))
  process_packet-sums t p fields key v e =
      let i = shard_of ip_string shard_hash t key in
      let old = get_or t.shards i [] in
      let below : i < length t.shards =
        omega (
          arith,
          shard_index-lt ip_string shard_hash t.shard_count key v.some_shard,
          v.all_shards,
        ) in
      let (a, b) = update_shard_lem key fields p old in
      let c = task_sum-set packets_of t.shards i (update_shard key fields p old) below in
      let d = task_sum-set bytes_of t.shards i (update_shard key fields p old) below in
      rw (process_packet-some ip_string shard_hash t p fields key e)
        (omega (arith, a, c), omega (arith, b, d))

  after-sums :
      (name : Bytes) (fs : List Bytes) (n : ℕ) (past : List PacketInfo)
      → let shards = (after ip_string shard_hash (new_task name fs n) past).shards in
        (u64 (task_sum packets_of shards) ≡ u64 (length (keyed ip_string fs past)))
        × (u64 (task_sum bytes_of shards) ≡ u64 (total_length (keyed ip_string fs past)))
  unfolding new_task
  after-sums name fs n [] = (
    ap u64 (task_sum-replicate packets_of (new_task name fs n).shard_count),
    ap u64 (task_sum-replicate bytes_of (new_task name fs n).shard_count),
  )
  after-sums name fs n (p ∷ past) =
      let t = after ip_string shard_hash (new_task name fs n) past in
      let v =
        after-IsValid ip_string shard_hash (new_task name fs n) past (new_task-IsValid name fs n) in
      let same : t.key_fields ≡ fs =
        after-key_fields ip_string shard_hash (new_task name fs n) past
        ∙ key_fields-new_task ip_string shard_hash name fs n in
      let (a, b) = after-sums name fs n past in
      elim (Option-cases (generate_key_and_fields ip_string fs p.five_tuple)) [
        | inl e ↦
            let k : keyed ip_string fs (p ∷ past) ≡ keyed ip_string fs past = ground (arith, e) in
            let still = process_packet-none ip_string shard_hash t p (rw same e) in
            (
              ap (λ (x : Task). u64 (task_sum packets_of x.shards)) still
                  ∙ (a ∙ ap (λ (l : List PacketInfo). u64 (length l)) (sym k)),
              ap (λ (x : Task). u64 (task_sum bytes_of x.shards)) still
                  ∙ (b ∙ ap (λ (l : List PacketInfo). u64 (total_length l)) (sym k)),
            )
        | inr ((fields, key), e) ↦
            let (c, d) = process_packet-sums t p fields key v (rw same e) in
            let k : keyed ip_string fs (p ∷ past) ≡ p ∷ keyed ip_string fs past =
              ground (arith, e) in
            (omega (arith, a, c, ap length k), omega (arith, b, d, ap total_length k))
      ]

  -- After any history of packets, the totals that `AlerterMsg` compares with its thresholds are, of
  -- the packets that make a key, their number and their bytes, modulo 2 ^ 64, whatever shards and
  -- flows they were counted in.
  pub totals-after :
      (name : Bytes) (fs : List Bytes) (n : ℕ) (past : List PacketInfo)
      → (flows : ℕ) × (totals
            (after ip_string shard_hash (new_task name fs n) past).shards
            (0, 0, 0)
          ≡ (
            length (keyed ip_string fs past) % 2 ^ 64,
            total_length (keyed ip_string fs past) % 2 ^ 64,
            flows,
          ))
  totals-after name fs n past =
      let shards = (after ip_string shard_hash (new_task name fs n) past).shards in
      let (a, b) = after-sums name fs n past in
      let whole = totals_lem shards 0 0 0 in (0 + flows_sum shards, ground (arith, whole, a, b))
