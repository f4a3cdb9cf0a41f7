-- ===== src/Packet/Codec.antt =====
-- Reading a header back from the bytes that it was copied to.
use lllsi.Base.{◌<◌, ◌≡◌, refl, ◌++◌, length, take-append, arith}
use lllsi.Packet.{
  Bytes, word, dword, RtsmpPacket, RtmpPacket, sizeof_rtmp_data, sizeof_rtmp_packet, rtsmp_bytes,
  rtsmp_of, header_bytes, header_of,
}

-- The fields fit their types.
pub record IsHeader (p : RtmpPacket) : Type 0 where
  pub size : p.size < word
  pub sliding_window : p.sliding_window < dword
  pub sequence_number : p.sequence_number < dword
  pub rtmp_data : length p.rtmp_data ≡ sizeof_rtmp_data

pub record IsRtsmp (r : RtsmpPacket) : Type 0 where
  pub frame_number : r.frame_number < dword
  pub offset : r.offset < word
  pub total_packets : r.total_packets < word

pub length-rtsmp_bytes : (r : RtsmpPacket) → length (rtsmp_bytes r) ≡ sizeof_rtmp_data
unfolding rtsmp_bytes
length-rtsmp_bytes r = refl

pub length-header_bytes :
    (p : RtmpPacket) → IsHeader p → length (header_bytes p) ≡ sizeof_rtmp_packet
unfolding header_bytes
length-header_bytes p v = omega arith

pub rtsmp_of-rtsmp_bytes : (r : RtsmpPacket) → IsRtsmp r → rtsmp_of (rtsmp_bytes r) ≡ r
unfolding rtsmp_of rtsmp_bytes
rtsmp_of-rtsmp_bytes r v = ground arith

-- Whatever follows a header in the datagram, the header is read back as it was written.
pub header_of-header_bytes :
    (p : RtmpPacket) (rest : Bytes) → IsHeader p → header_of (header_bytes p ++ rest) ≡ p
unfolding header_of header_bytes
header_of-header_bytes p rest v =
    ground (arith, take-append sizeof_rtmp_data p.rtmp_data rest v.rtmp_data)
