-- ===== src/ExactTask/Lookup.antt =====
-- `Query` of the exact task finds the flow of a packet by the packet's encoded key.
use go2net_spectra.Base.{
  ℕ, ◌+◌, ◌*◌, ◌%◌, ◌^◌, ◌<◌, bit_or, ◌≡◌, ap, ap₂, sym, ◌∙◌, arith, Bytes, text, join, itoa, List,
  [], ◌∷◌, ◌++◌, append_assoc, Option, none, some, length, length-append, get_elem?-append,
  Option-cases, inl, inr,
}
use go2net_spectra.Base.Bits.{bit_or-shifted}
use go2net_spectra.Base.Dict.{insert}
use go2net_spectra.Packet.{
  FiveTuple, PacketInfo, FieldKind, field_kind, src_ip, dst_ip, src_port, dst_port, protocol,
  unknown,
}
use go2net_spectra.SketchTask.{◌>>=◌, kind_byte_size, high_byte, low_byte}
use go2net_spectra.SketchTask.Layout.{kind_bytes, key_bytes, length-kind_bytes}
use go2net_spectra.SketchTask.RoundTrip.{InRange, slice-append, get_elem?-seam}
use go2net_spectra.ExactTask.{
  Flow, FieldValue, Task, new_task, u64, done, query_port, query_part, query_parts, key_part,
  key_parts, generate_key_and_fields, query,
}
use go2net_spectra.ExactTask.Shards.{flow_of}
use go2net_spectra.ExactTask.Aggregate.{
  after, matching, total_length, record_of, flow_of-after, after-key_fields, key_fields-new_task,
}

query_port-append :
    (pre post : Bytes) (p : ℕ)
    → p < 2 ^ 16
    → query_port (pre ++ (high_byte p ∷ low_byte p ∷ post)) (length pre)
      ≡ some (itoa p, length pre + 2)
unfolding query_port
query_port-append pre post p h =
    rw (get_elem?-seam pre (high_byte p) (low_byte p ∷ post), ◌>>=◌)
      (rw (get_elem?-append pre (high_byte p ∷ low_byte p ∷ post) 1, ◌>>=◌)
        (ap (λ n. some (itoa n, length pre + 2))
          (bit_or-shifted 8 (high_byte p) (low_byte p) (omega arith) ∙ omega arith)))

module _ (ip_string : Bytes → Bytes) where
  -- One field: `Query` reads the part that `generateKeyAndFields` made.
  query_part-append :
      (pre post : Bytes) (k : FieldKind) (ft : FiveTuple) {v : FieldValue} {part : Bytes}
      → InRange ft
      → key_part ip_string k ft ≡ some (v, part)
      → query_part ip_string (pre ++ (kind_bytes k ft ++ post)) (length pre) k
        ≡ done (part, length pre + kind_byte_size k)
  unfolding query_part key_part kind_byte_size
  query_part-append pre post src_ip ft r e =
      rw (slice-append pre ft.src_ip post 16 r.wide.src, ◌>>=◌) (ground (arith, e))
  query_part-append pre post dst_ip ft r e =
      rw (slice-append pre ft.dst_ip post 16 r.wide.dst, ◌>>=◌) (ground (arith, e))
  query_part-append pre post src_port ft r e =
      rw (query_port-append pre post ft.src_port r.src) (ground (arith, e))
  query_part-append pre post dst_port ft r e =
      rw (query_port-append pre post ft.dst_port r.dst) (ground (arith, e))
  query_part-append pre post protocol ft r e =
      rw (get_elem?-seam pre (low_byte ft.protocol) post, ◌>>=◌)
        (let same : low_byte ft.protocol ≡ ft.protocol = omega arith in ground (arith, e, same))
  query_part-append pre post unknown ft r e = absurd (cc e)

  query_parts-cons :
      (flow : Bytes) (i next : ℕ) (f : Bytes) (fs : List Bytes) (part : Bytes) (rest : List Bytes)
      → query_part ip_string flow i (field_kind f) ≡ done (part, next)
      → query_parts ip_string flow next fs ≡ done rest
      → query_parts ip_string flow i (f ∷ fs) ≡ done (part ∷ rest)
  unfolding query_parts
  query_parts-cons flow i next f fs part rest here there = ground (arith, here, there)

  key_parts-cons :
      (f : Bytes) (fs : List Bytes) (ft : FiveTuple) (acc out : List (Bytes × FieldValue))
      (parts : List Bytes)
      → key_parts ip_string (f ∷ fs) ft acc ≡ some (out, parts)
      → (v : FieldValue) × (part : Bytes) × (rest : List Bytes) × (key_part ip_string
            (field_kind f)
            ft
          ≡ some (v, part))
        × (key_parts ip_string fs ft (insert f v acc) ≡ some (out, rest))
        × (parts ≡ part ∷ rest)
  unfolding key_parts
  key_parts-cons f fs ft acc out parts e =
      elim (Option-cases (key_part ip_string (field_kind f) ft)) [
        | inl none' ↦ absurd (ground (arith, e, none'))
        | inr ((v, part), here) ↦ elim (Option-cases (key_parts ip_string fs ft (insert f v acc))) [
          | inl none' ↦ absurd (ground (arith, e, here, none'))
          | inr ((out', rest), there) ↦
              (v, part, rest, here, ground (arith, e, here, there), ground (arith, e, here, there))
        ]
      ]

  query_parts-append :
      (pre : Bytes) (fs : List Bytes) (ft : FiveTuple) (acc out : List (Bytes × FieldValue))
      (parts : List Bytes)
      → InRange ft
      → key_parts ip_string fs ft acc ≡ some (out, parts)
      → query_parts ip_string (pre ++ key_bytes fs ft) (length pre) fs ≡ done parts
  query_parts-append pre [] ft acc out parts r e = unfold query_parts key_parts in ground (arith, e)
  query_parts-append pre (f ∷ fs) ft acc out parts r e =
      let (v, part, rest, here, there, same) = key_parts-cons f fs ft acc out parts e in
      let k = field_kind f in
      let wrote = kind_bytes k ft in
      let tail = key_bytes fs ft in
      let moved : query_parts ip_string (pre ++ (wrote ++ tail)) (length pre + kind_byte_size k) fs
          ≡ query_parts ip_string (pre ++ wrote ++ tail) (length (pre ++ wrote)) fs =
        ap₂ (λ b i. query_parts ip_string b i fs) (sym (append_assoc pre wrote tail))
          (omega (arith, length-append pre wrote, length-kind_bytes k ft r.wide)) in
      rw same (
        query_parts-cons (pre ++ (wrote ++ tail)) (length pre) _ f fs part rest
          (query_part-append pre tail k ft r here)
          (moved ∙ query_parts-append (pre ++ wrote) fs ft (insert f v acc) out rest r there))

  generate-parts :
      (fs : List Bytes) (ft : FiveTuple) (fields : List (Bytes × FieldValue)) (key : Bytes)
      → generate_key_and_fields ip_string fs ft ≡ some (fields, key)
      → (parts : List Bytes) × (key_parts ip_string fs ft [] ≡ some (fields, parts))
        × (join parts (text "-") ≡ key)
  unfolding generate_key_and_fields
  generate-parts fs ft fields key e = elim (Option-cases (key_parts ip_string fs ft [])) [
    | inl none' ↦ absurd (ground (arith, e, none'))
    | inr ((fields', parts), made) ↦ (parts, ground (arith, e, made), ground (arith, e, made))
  ]

  -- The word that `Query` returns for a flow.
  abbrev pub packed : Option Flow → ℕ
  packed none = 0
  packed (some f) = bit_or (u64 (f.packet_count * 2 ^ 32)) f.byte_count

  module _ (shard_hash : Bytes → ℕ) where
    query-flow_of :
        (t : Task) (ft : FiveTuple) (fields : List (Bytes × FieldValue)) (key : Bytes)
        → InRange ft
        → generate_key_and_fields ip_string t.key_fields ft ≡ some (fields, key)
        → query ip_string shard_hash t (key_bytes t.key_fields ft)
          ≡ some (packed (flow_of ip_string shard_hash t key))
    unfolding query flow_of
    query-flow_of t ft fields key r e =
        let (parts, made, joined) = generate-parts t.key_fields ft fields key e in
        let read = query_parts-append [] t.key_fields ft [] fields parts r made in
        rw (read, query) (rw joined (ground arith))

    packed-record_of :
        (fs : List Bytes) (key : Bytes) (ps : List PacketInfo)
        → length ps < 2 ^ 32
        → total_length ps < 2 ^ 32
        → packed (record_of ip_string fs key ps) ≡ length ps * 2 ^ 32 + total_length ps
    packed-record_of fs key [] hn hb = omega arith
    packed-record_of fs key (p ∷ ps) hn hb =
        let n : ℕ = length (p ∷ ps) in
        let b : ℕ = total_length (p ∷ ps) in
        let pw : u64 (n % 2 ^ 64 * 2 ^ 32) ≡ n * 2 ^ 32 = omega arith in
        let bw : b % 2 ^ 64 ≡ b = omega arith in rw (pw, bw) (bit_or-shifted 32 n b hb)

    -- A new task, after any history of packets: asked for the encoded key of a packet, `Query`
    -- returns the number of the packets with that key in the high word and their bytes in the low
    -- word, as long as both are below 2 ^ 32.
    pub query-after :
        (name : Bytes) (fs : List Bytes) (n : ℕ) (past : List PacketInfo) (ft : FiveTuple)
        (fields : List (Bytes × FieldValue)) (key : Bytes)
        → InRange ft
        → generate_key_and_fields ip_string fs ft ≡ some (fields, key)
        → length (matching ip_string fs key past) < 2 ^ 32
        → total_length (matching ip_string fs key past) < 2 ^ 32
        → query ip_string shard_hash
            (after ip_string shard_hash (new_task name fs n) past)
            (key_bytes fs ft)
          ≡ some (
              length (matching ip_string fs key past) * 2 ^ 32
              + total_length (matching ip_string fs key past))
    query-after name fs n past ft fields key r e hn hb =
        let start = new_task name fs n in
        let t = after ip_string shard_hash start past in
        let same : t.key_fields ≡ fs =
          after-key_fields ip_string shard_hash start past
          ∙ key_fields-new_task ip_string shard_hash name fs n in
        ap (λ ks. query ip_string shard_hash t (key_bytes ks ft)) (sym same)
        ∙ query-flow_of t ft fields key r (rw same e)
        ∙ ap (λ f. some (packed f)) (flow_of-after ip_string shard_hash name fs n past key)
        ∙ ap some (packed-record_of fs key (matching ip_string fs key past) hn hb)
