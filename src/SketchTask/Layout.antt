-- ===== src/SketchTask/Layout.antt =====
-- Where the fields of a packet lie in an encoded key.
use go2net_spectra.Base.{
  ℕ, ◌+◌, ◌≤◌, ◌<◌, ◌≡◌, refl, ap, ap₂, sym, ◌∙◌, arith, Bytes, copy, List, [], ◌∷◌, ◌++◌,
  append_assoc, append-nil, drop_all, some, length, length-append, drop, length-drop, drop-add, set,
  take-append, drop-append, set-append,
}
use go2net_spectra.Packet.{
  FiveTuple, FieldKind, field_kind, src_ip, dst_ip, src_port, dst_port, protocol, unknown,
}
use go2net_spectra.SketchTask.{
  ◌>>=◌, kind_byte_size, field_byte_size, fields_size, store, copy_at, high_byte, low_byte,
  encode_ip, encode_port, encode_kind, encode_flow, encode_fields, generate_flow_and_elem,
}

-- The bytes of a field: an address as it is, a port in network order.
abbrev pub kind_bytes : FieldKind → FiveTuple → Bytes
kind_bytes src_ip ft = ft.src_ip
kind_bytes dst_ip ft = ft.dst_ip
kind_bytes src_port ft = high_byte ft.src_port ∷ low_byte ft.src_port ∷ []
kind_bytes dst_port ft = high_byte ft.dst_port ∷ low_byte ft.dst_port ∷ []
kind_bytes protocol ft = low_byte ft.protocol ∷ []
kind_bytes unknown ft = []

-- The key that a list of fields makes.
abbrev pub key_bytes : List Bytes → FiveTuple → Bytes
key_bytes [] ft = []
key_bytes (f ∷ fs) ft = kind_bytes (field_kind f) ft ++ key_bytes fs ft

-- Both addresses have the length that the layout gives them.
pub record IsWide (ft : FiveTuple) : Type 0 where
  pub src : length ft.src_ip ≡ 16
  pub dst : length ft.dst_ip ≡ 16

pub length-kind_bytes :
    (k : FieldKind) (ft : FiveTuple) → IsWide ft → length (kind_bytes k ft) ≡ kind_byte_size k
unfolding kind_byte_size
length-kind_bytes src_ip ft w = w.src
length-kind_bytes dst_ip ft w = w.dst
length-kind_bytes src_port ft w = refl
length-kind_bytes dst_port ft w = refl
length-kind_bytes protocol ft w = refl
length-kind_bytes unknown ft w = refl

copy-shorter :
    (old src : Bytes) → length src ≤ length old → copy old src ≡ src ++ drop (length src) old
unfolding copy
copy-shorter [] [] h = refl
copy-shorter [] (s ∷ src) h = absurd (omega arith)
copy-shorter (x ∷ old) [] h = refl
copy-shorter (x ∷ old) (s ∷ src) h = ap (◌∷◌ s) (copy-shorter old src (omega arith))

pub copy_at-append :
    (pre old src : Bytes)
    → length src ≤ length old
    → copy_at (pre ++ old) (length pre) src ≡ some (pre ++ (src ++ drop (length src) old))
unfolding copy_at
copy_at-append pre old src h =
    ground (
      arith,
      length-append pre old,
      take-append pre old,
      drop-append pre old,
      copy-shorter old src h,
    )

store-append :
    (pre old : Bytes) (i v : ℕ)
    → i < length old
    → store (pre ++ old) (length pre + i) v ≡ some (pre ++ set old i v)
unfolding store
store-append pre old i v h = ground (arith, length-append pre old, set-append pre old i v)

store-append_first :
    (pre : Bytes) (x v : ℕ) (old : Bytes)
    → store (pre ++ x ∷ old) (length pre) v ≡ some (pre ++ v ∷ old)
store-append_first pre x v old =
    let e : length pre ≡ length pre + 0 = omega arith in
    ap (λ k. store (pre ++ x ∷ old) k v) e ∙ store-append pre (x ∷ old) 0 v (omega arith)

encode_ip-append :
    (pre old ip : Bytes)
    → length ip ≡ 16
    → 16 ≤ length old
    → encode_ip (pre ++ old) (length pre) ip ≡ some (pre ++ (ip ++ drop 16 old), length pre + 16)
unfolding encode_ip
encode_ip-append pre old ip e h = rw (copy_at-append pre old ip (omega arith), ◌>>=◌, e)

encode_port-append :
    (pre old : Bytes) (port : ℕ)
    → 2 ≤ length old
    → encode_port (pre ++ old) (length pre) port
      ≡ some (pre ++ (high_byte port ∷ low_byte port ∷ drop 2 old), length pre + 2)
unfolding encode_port
encode_port-append pre [] port h = absurd (omega arith)
encode_port-append pre (x ∷ []) port h = absurd (omega arith)
encode_port-append pre (x ∷ y ∷ old) port h = rw (
  store-append_first pre x (high_byte port) (y ∷ old),
  ◌>>=◌,
  store-append pre (high_byte port ∷ y ∷ old) 1 (low_byte port) (omega arith),
  ◌>>=◌,
)

-- One field, written at the end of what stands before it.
encode_kind-append :
    (pre old : Bytes) (k : FieldKind) (ft : FiveTuple)
    → IsWide ft
    → kind_byte_size k ≤ length old
    → encode_kind (pre ++ old) (length pre) k ft
      ≡ some
          (pre ++ (kind_bytes k ft ++ drop (kind_byte_size k) old), length pre + kind_byte_size k)
unfolding encode_kind kind_byte_size
encode_kind-append pre old src_ip ft w h = encode_ip-append pre old ft.src_ip w.src h
encode_kind-append pre old dst_ip ft w h = encode_ip-append pre old ft.dst_ip w.dst h
encode_kind-append pre old src_port ft w h = encode_port-append pre old ft.src_port h
encode_kind-append pre old dst_port ft w h = encode_port-append pre old ft.dst_port h
encode_kind-append pre [] protocol ft w h = absurd (omega arith)
encode_kind-append pre (x ∷ old) protocol ft w h =
    rw (store-append_first pre x (low_byte ft.protocol) old, ◌>>=◌)
encode_kind-append pre old unknown ft w h = ap (λ k. some (pre ++ old, k)) (omega arith)

encode_fields-append :
    (pre old : Bytes) (fs : List Bytes) (ft : FiveTuple)
    → IsWide ft
    → fields_size fs ≤ length old
    → encode_fields (pre ++ old) (length pre) fs ft
      ≡ some (pre ++ (key_bytes fs ft ++ drop (fields_size fs) old))
unfolding encode_fields encode_flow fields_size field_byte_size
encode_fields-append pre old [] ft w h = refl
encode_fields-append pre old (f ∷ fs) ft w h =
    let k = field_kind f in
    let n = kind_byte_size k in
    let wrote = kind_bytes k ft in
    let rest = drop n old in
    let size : length wrote ≡ n = length-kind_bytes k ft w in
    let here = encode_kind-append pre old k ft w (omega arith) in
    let room : fields_size fs ≤ length rest = omega (arith, length-drop n old) in
    let moved =
      ap₂ (λ b i. encode_fields b i fs ft) (sym (append_assoc pre wrote rest))
        (omega (arith, length-append pre wrote, size)) in
    let there = encode_fields-append (pre ++ wrote) rest fs ft w room in
    let tail = key_bytes fs ft in
    let regroup : pre ++ wrote ++ (tail ++ drop (fields_size fs) rest)
        ≡ pre ++ (wrote ++ tail ++ drop (n + fields_size fs) old) =
      rw (drop-add n (fields_size fs) old) (simp append_assoc) in
    rw (here, ◌>>=◌) (moved ∙ there ∙ ap some regroup)

encode_whole :
    (fs : List Bytes) (buf : Bytes) (ft : FiveTuple)
    → IsWide ft
    → length buf ≡ fields_size fs
    → encode_fields buf 0 fs ft ≡ some (key_bytes fs ft)
encode_whole fs buf ft w h =
    encode_fields-append [] buf fs ft w (omega arith)
    ∙ ap some (
        ap (λ d. key_bytes fs ft ++ d) (drop_all (fields_size fs) buf (omega arith))
        ∙ append-nil (key_bytes fs ft))

-- For addresses of 16 bytes `generateFlowAndElem` never panics on buffers of the configured sizes,
-- and the two keys that it writes are the packet's fields, whatever the buffers held.
pub generate_flow_and_elem_lem :
    (flow_fields element_fields : List Bytes) (flow elem : Bytes) (ft : FiveTuple)
    → IsWide ft
    → length flow ≡ fields_size flow_fields
    → length elem ≡ fields_size element_fields
    → generate_flow_and_elem flow_fields element_fields flow elem ft
      ≡ some (key_bytes flow_fields ft, key_bytes element_fields ft)
unfolding generate_flow_and_elem
generate_flow_and_elem_lem ffs efs flow elem ft w hf he =
    rw (encode_whole ffs flow ft w hf, ◌>>=◌, encode_whole efs elem ft w he, ◌>>=◌)
