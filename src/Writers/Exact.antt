-- ===== src/Writers/Exact.antt =====
-- The totals of a gob snapshot, against those of the alerts.
use go2net_spectra.Base.{
  ℕ, ◌+◌, ◌<◌, ◌≡◌, ap, ◌∙◌, arith, List, [], ◌∷◌, length, Option, none, some, true, ◌⊎◌, inl, inr,
  Bool-cases, Option-cases,
}
use go2net_spectra.ExactTask.{u64, Shard, SnapshotData, shard_totals, totals}
use go2net_spectra.Writers.{Files, SummaryData, add_flows, write_shards, write_gob}

add_flows_lem :
    (s : Shard) (packets bytes flows : ℕ)
    → shard_totals s (packets, bytes, flows)
      ≡ ((add_flows s (packets, bytes)).0, (add_flows s (packets, bytes)).1, flows + length s)
unfolding add_flows shard_totals
add_flows_lem [] packets bytes flows = ground arith
add_flows_lem ((k, f) ∷ s) packets bytes flows =
    let ih =
      add_flows_lem s (u64 (packets + f.packet_count)) (u64 (bytes + f.byte_count)) (flows + 1) in
    ground (arith, ih)

write_shards-totals :
    (files : Files) (i : ℕ) (shards : List Shard) (n packets bytes n' packets' bytes' : ℕ)
    → write_shards files i shards (n, packets, bytes) ≡ some (n', packets', bytes')
    → totals shards (packets, bytes, n) ≡ (packets', bytes', n')
unfolding write_shards totals shard_totals
write_shards-totals files i [] n packets bytes n' packets' bytes' e = ground (arith, e)
write_shards-totals files i ([] ∷ shards) n packets bytes n' packets' bytes' e =
    write_shards-totals files (i + 1) shards n packets bytes n' packets' bytes' e
write_shards-totals files i ((x ∷ flows) ∷ shards) n packets bytes n' packets' bytes' e =
    let s = x ∷ flows in
    let sums = add_flows s (packets, bytes) in
    elim (Bool-cases (files.takes_shard i s)) [
      | inr refused ↦ absurd (ground (arith, e, refused))
      | inl taken ↦
          ap (totals shards) (add_flows_lem s packets bytes n)
          ∙ write_shards-totals files (i + 1) shards (n + length s) sums.0 sums.1 n' packets' bytes'
              (ground (arith, e, taken))
    ]

-- When the gob writer returns without an error: a snapshot with flows has a summary, whose packets,
-- bytes and flows are the totals that `AlerterMsg` compares with its thresholds, whatever shards the
-- flows stand in; and a snapshot without flows has none.
pub write_gob-totals :
    (files : Files) (snapshot : SnapshotData) (summary : Option SummaryData)
    → write_gob files snapshot ≡ (true, summary)
    → (packets : ℕ) × ((bytes : ℕ) × ((flows : ℕ) × (totals snapshot.shards (0, 0, 0)
            ≡ (packets, bytes, flows))
          × (((flows ≡ 0) × (summary ≡ none))
              ⊎ ((0 < flows)
                  × (summary
                      ≡ some (record {
                        task_name = snapshot.task_name;
                        total_flows = flows;
                        total_bytes = bytes;
                        total_packets = packets;
                        shards = length snapshot.shards;
                      }))))))
unfolding write_gob
write_gob-totals files snapshot summary h =
    elim (Option-cases (write_shards files 0 snapshot.shards (0, 0, 0))) [
      | inl failed ↦ absurd (ground (arith, h, failed))
      | inr ((n, packets, bytes), e) ↦ (
        packets,
        (
          bytes,
          (
            n,
            write_shards-totals files 0 snapshot.shards 0 0 0 n packets bytes e,
            ground (arith, h, e),
          ),
        ),
      )
    ]
