-- ===== src/Host/Recent.antt =====
-- The packets that VideoHost/host.cpp keeps until they are acknowledged.
use lllsi.Base.{
  ℕ, ◌≤◌, ◌<◌, ◌≡◌, refl, ap, sym, ◌∙◌, ◌⊎◌, inl, inr, Bool, true, false, List, [], ◌∷◌, ◌++◌,
  append_assoc, append-nil, ltb, ◌==◌, if◌then◌else◌, length, All, some, none, Map, lookup,
  lookup-emplace, lookup-erase, Bool-cases, ==_iff, subst, All-emplace, All-erase, arith,
}
use lllsi.Packet.{Bytes, RtmpPacket, header_bytes, header_of}
use lllsi.Packet.Codec.{IsHeader, header_of-header_bytes}
use lllsi.Host.{
  PacketManager, recent_packets_size, remove_recent_packet, send_packet, resend, ack_packets,
}

abbrev pub packets_of : Map Bytes → List Bytes
packets_of [] = []
packets_of ((k, b) ∷ r) = b ∷ packets_of r

resend_lem :
    (r : Map Bytes) (m : PacketManager)
    → ((resend r m).sent ≡ m.sent ++ packets_of r)
      × ((resend r m).recent_packets ≡ m.recent_packets)
      × ((resend r m).sequence_number ≡ m.sequence_number)
unfolding resend
resend_lem [] m = (sym (append-nil m.sent), refl, refl)
resend_lem ((k, b) ∷ r) m =
    let (sent, recent, seq) =
      resend_lem r (record m { sent = m.sent ++ b ∷ []; ack_flag = true }) in
    (sent ∙ append_assoc m.sent (b ∷ []) (packets_of r), recent, seq)

-- One pass sends every packet again that is not acknowledged, in the map's order, and keeps them,
-- unless there are more than 200: then all are dropped. Nothing else is sent, and the numbering
-- goes on. So at most 200 packets are kept after a pass.
pub ack_packets_lem :
    (m : PacketManager)
    → ((ack_packets m).sent ≡ m.sent ++ packets_of m.recent_packets)
      × ((ack_packets m).recent_packets
          ≡ (if ltb recent_packets_size (length m.recent_packets) then [] else m.recent_packets))
      × ((ack_packets m).sequence_number ≡ m.sequence_number)
      × (length (ack_packets m).recent_packets ≤ recent_packets_size)
unfolding ack_packets
ack_packets_lem m =
    let (sent, recent, seq) = resend_lem m.recent_packets m in
    elim (Bool-cases (ltb recent_packets_size (length m.recent_packets))) [
      | inl over ↦ rw over (sent, refl, seq, omega arith)
      | inr under ↦ rw under (sent, recent, seq, ground (arith, ap length recent))
    ]

-- Each packet is filed under the sequence number that its header carries.
abbrev pub Filed : Map Bytes → Type 0
Filed r = All (λ (e : ℕ × Bytes). (header_of e.1).sequence_number ≡ e.0) r

-- What happens to the manager: a packet is sent, an acknowledgement comes in, or the map is gone
-- through again.
pub data Event : Type 0 where
  sends : RtmpPacket → Bytes → Bool → Event
  acks : ℕ → Event
  passes : Event

pub step : PacketManager → Event → PacketManager
unfolding send_packet remove_recent_packet
step m (sends header payload save) = send_packet m header payload save
step m (acks seq_num) = remove_recent_packet m seq_num
step m passes = ack_packets m

pub run : PacketManager → List Event → PacketManager
run m [] = m
run m (e ∷ es) = run (step m e) es

-- Somewhere along the events the packet numbered `k` is acknowledged, or a pass meets an overfull
-- map.
pub data Forgotten (k : ℕ) : PacketManager → List Event → Type 0 where
  acked : {m : PacketManager} {es : List Event} → Forgotten k m (acks k ∷ es)
  overflowed :
      {m : PacketManager} {es : List Event}
      → recent_packets_size < length m.recent_packets
      → Forgotten k m (passes ∷ es)
  later :
      {m : PacketManager} {e : Event} {es : List Event}
      → Forgotten k (step m e) es
      → Forgotten k m (e ∷ es)

step-Kept :
    (k : ℕ) (b : Bytes) (m : PacketManager) (e : Event) (es : List Event)
    → lookup k m.recent_packets ≡ some b
    → (lookup k (step m e).recent_packets ≡ some b) ⊎ Forgotten k m (e ∷ es)
unfolding step
step-Kept k b m (sends header payload true) es h = inl (
    ground (
      arith,
      lookup-emplace header.sequence_number k (header_bytes header ++ payload) m.recent_packets,
    ))
step-Kept k b m (sends header payload false) es h = inl h
step-Kept k b m (acks j) es h = elim (Bool-cases (j == k)) [
  | inl same ↦
      inr (subst (λ (a : ℕ). Forgotten k m (acks a ∷ es)) (sym ((==_iff j k).0 same)) acked)
  | inr other ↦ inl (
      lookup-erase j k m.recent_packets
      ∙ ap (λ (t : Bool). if t then none else lookup k m.recent_packets) other
      ∙ h)
]
step-Kept k b m passes es h =
    elim (Bool-cases (ltb recent_packets_size (length m.recent_packets))) [
      | inl over ↦ inr (overflowed (ground arith))
      | inr under ↦ inl (
          ap (lookup k)
            ((ack_packets_lem m).1 ∙ ap (λ (t : Bool). if t then [] else m.recent_packets) under)
          ∙ h)
    ]

-- Whatever happens, a packet that waits for its acknowledgement goes on waiting, unless it is
-- acknowledged or a pass meets more than 200 packets.
pub run-Kept :
    (k : ℕ) (b : Bytes) (m : PacketManager) (es : List Event)
    → lookup k m.recent_packets ≡ some b
    → (lookup k (run m es).recent_packets ≡ some b) ⊎ Forgotten k m es
unfolding run
run-Kept k b m [] h = inl h
run-Kept k b m (e ∷ es) h = elim (step-Kept k b m e es h) [
  | inr lost ↦ inr lost
  | inl kept ↦ elim (run-Kept k b (step m e) es kept) [
    | inl done ↦ inl done
    | inr lost ↦ inr (later lost)
  ]
]

-- The headers that are sent fit their types.
abbrev pub Sendable : Event → Type 0
Sendable (sends header payload save) = IsHeader header
Sendable (acks j) = Unit {0}
Sendable passes = Unit {0}

step-Filed :
    (m : PacketManager) (e : Event)
    → Sendable e
    → Filed m.recent_packets
    → Filed (step m e).recent_packets
unfolding step
step-Filed m (sends header payload true) v h =
    All-emplace _ header.sequence_number (header_bytes header ++ payload) m.recent_packets
      (ap (λ (p : RtmpPacket). p.sequence_number) (header_of-header_bytes header payload v)) h
step-Filed m (sends header payload false) v h = h
step-Filed m (acks j) v h = All-erase _ j m.recent_packets h
step-Filed m passes v h = elim (Bool-cases (ltb recent_packets_size (length m.recent_packets))) [
  | inl over ↦
      subst Filed
        (sym ((ack_packets_lem m).1 ∙ ap (λ (t : Bool). if t then [] else m.recent_packets) over))
        tt
  | inr under ↦
      subst Filed
        (sym ((ack_packets_lem m).1 ∙ ap (λ (t : Bool). if t then [] else m.recent_packets) under))
        h
]

-- Whatever happens, each packet in the map is filed under the sequence number that its own header
-- carries, which is the number that the viewer's acknowledgement will name.
pub run-Filed :
    (m : PacketManager) (es : List Event)
    → All Sendable es
    → Filed m.recent_packets
    → Filed (run m es).recent_packets
unfolding run
run-Filed m [] v h = h
run-Filed m (e ∷ es) v h = run-Filed (step m e) es v.1 (step-Filed m e v.0 h)
