-- ===== src/PacketCodec/Sample.antt =====
-- A serializer of messages without addresses, for the runs at concrete inputs.
use go2net_spectra.Base.{ap, sym, ℕ, ◌≡◌, Bytes, [], ◌∷◌, Option, none, some}
use go2net_spectra.Packet.{PacketInfo}
use go2net_spectra.PacketCodec.{ThriftFiveTuple, ThriftPacketInfo}

abbrev write_tuple : ℕ → ℕ → ThriftFiveTuple → Bytes → Bytes → Option Bytes
write_tuple time length f [] [] = some (time ∷ length ∷ f.src_port ∷ f.dst_port ∷ f.protocol ∷ [])
write_tuple time length f [] (x ∷ dst) = none
write_tuple time length f (x ∷ src) dst = none

abbrev write_parts : ℕ → ℕ → Option ThriftFiveTuple → Option Bytes
write_parts time length none = some (time ∷ length ∷ [])
write_parts time length (some f) = write_tuple time length f f.src_ip f.dst_ip

abbrev pub write : ThriftPacketInfo → Option Bytes
write t = write_parts t.timestamp_unix_nano t.length t.five_tuple

abbrev pub read : Bytes → Option ThriftPacketInfo
read (time ∷ length ∷ []) =
    some (record { timestamp_unix_nano = time; five_tuple = none; length = length })
read (time ∷ length ∷ src ∷ dst ∷ proto ∷ []) = some (record {
  timestamp_unix_nano = time;
  five_tuple =
      some (record { src_ip = []; dst_ip = []; src_port = src; dst_port = dst; protocol = proto });
  length = length;
})
read other = none

abbrev unwrap : Option Bytes → Bytes
unwrap none = []
unwrap (some b) = b

reads_tuple :
    (time length src dst proto : ℕ) (a c b : Bytes)
    → let f : ThriftFiveTuple = record {
      src_ip = a;
      dst_ip = c;
      src_port = src;
      dst_port = dst;
      protocol = proto;
    } in
      write_tuple time length f a c ≡ some b
      → read b ≡ some (record { timestamp_unix_nano = time; five_tuple = some f; length = length })
reads_tuple time length src dst proto [] [] b e = ap (λ o. read (unwrap o)) (sym e)
reads_tuple time length src dst proto [] (x ∷ c) b e = cc e
reads_tuple time length src dst proto (x ∷ a) c b e = cc e

reads_parts :
    (time length : ℕ) (f : Option ThriftFiveTuple) (b : Bytes)
    → write_parts time length f ≡ some b
    → read b ≡ some (record { timestamp_unix_nano = time; five_tuple = f; length = length })
reads_parts time length none b e = ap (λ o. read (unwrap o)) (sym e)
reads_parts time length (some f) b e =
    reads_tuple time length f.src_port f.dst_port f.protocol f.src_ip f.dst_ip b e

pub reads_back : (t : ThriftPacketInfo) (b : Bytes) → write t ≡ some b → read b ≡ some t
reads_back t b e = reads_parts t.timestamp_unix_nano t.length t.five_tuple b e

abbrev pub packet : PacketInfo
packet = record {
  timestamp = 5;
  five_tuple = record { src_ip = []; dst_ip = []; src_port = 80; dst_port = 443; protocol = 6 };
  length = 60;
}
