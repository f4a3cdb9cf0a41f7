-- ===== src/Packet.antt =====
-- The packet structs of RDIBY/protocols.h and VideoHost/protocol.h, and their bytes in memory.
-- A `CHAR`, `WORD`, `DWORD` or `LONG` is its bit pattern, a number. The layout is that of the
-- compiler the program is built with: little-endian, natural alignment, padding bytes zero.
pub mod Codec
use lllsi.Base.{ℕ, ◌+◌, ◌*◌, ◌/◌, ◌%◌, ◌^◌, List, [], ◌∷◌, ◌++◌, take, drop, get_or}

abbrev pub Bytes : Type 0
Bytes = List ℕ

abbrev pub word : ℕ
word = 2 ^ 16

abbrev pub dword : ℕ
dword = 2 ^ 32

abbrev pub packet_type_event : ℕ
packet_type_event = 0

abbrev pub packet_type_stream : ℕ
packet_type_stream = 1

abbrev pub packet_type_control : ℕ
packet_type_control = 2

abbrev pub flag_last_packet : ℕ
flag_last_packet = 0x01

abbrev pub flag_ack : ℕ
flag_ack = 0x02

pub record MouseData : Type 0 where
  pub dx : ℕ
  pub dy : ℕ
  pub mouse_flags : ℕ
  pub mouse_data : ℕ

pub record KeyboardData : Type 0 where
  pub vk_code : ℕ
  pub keyboard_flags : ℕ

pub record RtsmpPacket : Type 0 where
  pub stream_type : ℕ
  pub frame_number : ℕ
  pub offset : ℕ
  pub total_packets : ℕ

-- `rtmp_data` is the storage of the union, `sizeof_rtmp_data` bytes.
pub record RtmpPacket : Type 0 where
  pub version : ℕ
  pub type : ℕ
  pub size : ℕ
  pub sliding_window : ℕ
  pub sequence_number : ℕ
  pub flags : ℕ
  pub rtmp_data : Bytes

abbrev pub sizeof_rtmp_data : ℕ
sizeof_rtmp_data = 20

abbrev pub sizeof_rtmp_packet : ℕ
sizeof_rtmp_packet = 36

-- The bytes of a `WORD` and of a `DWORD`.
abbrev pub le16 : ℕ → Bytes
le16 n = (n % 256) ∷ (n / 256 % 256) ∷ []

abbrev pub le32 : ℕ → Bytes
le32 n = (n % 256) ∷ (n / 256 % 256) ∷ (n / 65536 % 256) ∷ (n / 16777216 % 256) ∷ []

abbrev pub u8 : Bytes → ℕ → ℕ
u8 b i = get_or b i 0

abbrev pub u16 : Bytes → ℕ → ℕ
u16 b i = u8 b i + 256 * u8 b (i + 1)

abbrev pub u32 : Bytes → ℕ → ℕ
u32 b i = u8 b i + 256 * u8 b (i + 1) + 65536 * u8 b (i + 2) + 16777216 * u8 b (i + 3)

-- The union written and read as its member `rtsmp`.
pub rtsmp_bytes : RtsmpPacket → Bytes
rtsmp_bytes r =
    r.stream_type
    ∷ 0
    ∷ 0
    ∷ 0
    ∷ (le32 r.frame_number
        ++ (le16 r.offset ++ (le16 r.total_packets ++ 0 ∷ 0 ∷ 0 ∷ 0 ∷ 0 ∷ 0 ∷ 0 ∷ 0 ∷ [])))

pub rtsmp_of : Bytes → RtsmpPacket
rtsmp_of b = record {
  stream_type = u8 b 0;
  frame_number = u32 b 4;
  offset = u16 b 8;
  total_packets = u16 b 10;
}

-- The memory of a header, as `memcpy` takes it out and puts it back.
unfoldable pub header_bytes : RtmpPacket → Bytes
header_bytes p =
    p.version
    ∷ p.type
    ∷ (le16 p.size
        ++ (le32 p.sliding_window
            ++ (le32 p.sequence_number ++ (p.flags ∷ 0 ∷ 0 ∷ 0 ∷ p.rtmp_data))))

unfoldable pub header_of : Bytes → RtmpPacket
header_of b = record {
  version = u8 b 0;
  type = u8 b 1;
  size = u16 b 2;
  sliding_window = u32 b 4;
  sequence_number = u32 b 8;
  flags = u8 b 12;
  rtmp_data = take sizeof_rtmp_data (drop 16 b);
}
