-- ===== src/Packet.antt =====
-- The packet metadata of internal/model/packet.go, and the names of the key fields that the two
-- kinds of task share. Addresses are `net.IP`, that is byte slices.
use go2net_spectra.Base.{ℕ, Bytes, text, bytes_eq, if◌then◌else◌}

pub record FiveTuple : Type 0 where
  pub src_ip : Bytes
  pub dst_ip : Bytes
  pub src_port : ℕ
  pub dst_port : ℕ
  pub protocol : ℕ

pub record PacketInfo : Type 0 where
  pub timestamp : ℕ
  pub five_tuple : FiveTuple
  pub length : ℕ

-- The cases of the `switch` on a field's name.
pub data FieldKind : Type 0 where
  src_ip dst_ip src_port dst_port protocol unknown : FieldKind

unfoldable pub field_kind : Bytes → FieldKind
field_kind name =
    if bytes_eq name (text "SrcIP")
    then src_ip
    else if bytes_eq name (text "DstIP")
    then dst_ip
    else if bytes_eq name (text "SrcPort")
    then src_port
    else if bytes_eq name (text "DstPort")
    then dst_port
    else if bytes_eq name (text "Protocol")
    then protocol
    else unknown
