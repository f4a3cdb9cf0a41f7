-- ===== src/Delivery.antt =====
-- From the host's packet manager (VideoHost/host.h) to the viewer's frame map
-- (VideoClient/main.cpp): what becomes of a frame on its way.
pub mod Buffer
pub mod Step
pub mod Turn
pub mod Order
pub mod Lossy
pub mod Ack
pub mod Screen
use mathlib.Core.List.{Mem, Perm, mem-cons_self, mem-cons_of_mem}
use mathlib.Core.List.Perm
use mathlib.Core.Path.{ap₂}
use lllsi.Base.{
  ℕ, zero, suc, ◌+◌, ◌*◌, ◌/◌, ◌%◌, ◌≤◌, ◌<◌, ◌≡◌, refl, ap, sym, ◌∙◌, ◌⊎◌, inl, inr, Bool, true,
  false, List, [], ◌∷◌, ◌++◌, ◌==◌, ==_iff, Map, leb, Bool-cases, map, if◌then◌else◌, length,
  get_elem?, get_or, get_elem?-none, eq_of_get_elem?, lookup, Option, some, none, Result, ok,
  is_empty, arith,
}
use lllsi.Packet.{Bytes, dword}
use lllsi.Host.{StreamFrame, PacketManager, total_packets, send_frame}
use lllsi.Host.Fragments.{payload_bytes, Fits, fragment, fragments, total_packets-Fits}
use lllsi.Host.Sending.{send_frame-Sent}
use lllsi.Viewer.{Viewer, FrameBuffer}
use Buffer.{Agrees}
use Step.{Progress, next_buffer, Progress-new}
use Turn.{deliver}
use Order.{
  range_from, sum_chunks, sum_chunks-perm, sum_chunks-range_from, lt_of_mem-range_from,
  mem-range_from, TakenIn, deliver-TakenIn,
}

pub get_or-fragments :
    (rounds i j : ℕ) (f : StreamFrame) (frame_num s : ℕ)
    → j < rounds
    → s < dword
    → get_or (fragments rounds i f frame_num s) j []
      ≡ fragment f frame_num ((s + j) % dword) (i + j)
unfolding fragments
get_or-fragments zero i j f frame_num s h hs = absurd (omega arith)
get_or-fragments (suc rounds) i zero f frame_num s h hs =
    ap₂ (fragment f frame_num) (omega arith) (omega arith)
get_or-fragments (suc rounds) i (suc j) f frame_num s h hs =
    get_or-fragments rounds (i + 1) j f frame_num ((s + 1) % dword) (omega arith) (omega arith)
    ∙ ap₂ (fragment f frame_num) (omega arith) (omega arith)

pub map_on_members :
    {A : Type 0} (g h : ℕ → A) (is : List ℕ)
    → ((i : ℕ) → Mem i is → g i ≡ h i)
    → map g is ≡ map h is
map_on_members g h [] e = refl
map_on_members g h (i ∷ is) e =
    ap₂ ◌∷◌ (e i mem-cons_self) (map_on_members g h is (λ k m. e k (mem-cons_of_mem i m)))

-- A buffer into which every packet went holds the frame.
chunks_complete :
    (f : StreamFrame) (v : Fits f) (fb : FrameBuffer)
    → length fb.chunks ≡ length f.bytes
    → ((i j : ℕ)
        → i < total_packets f
        → j < length f.bytes
        → i * payload_bytes ≤ j
        → j < (i + 1) * payload_bytes
        → Agrees f fb j)
    → fb.chunks ≡ f.bytes
chunks_complete f v fb e filled = eq_of_get_elem? fb.chunks f.bytes λ j.
    elim (Bool-cases (leb (length f.bytes) j)) [
      | inl past ↦
          get_elem?-none fb.chunks j (ground arith) ∙ sym (get_elem?-none f.bytes j (ground arith))
      | inr within ↦
          let inside : j < length f.bytes = ground arith in
          filled (j / payload_bytes) j (omega (arith, total_packets-Fits f v)) inside (omega arith)
            (omega arith)
    ]

busy_order : (l : ℕ) (order : List ℕ) → sum_chunks l order ≡ l → 0 < l → is_empty order ≡ false
busy_order l [] e h = absurd (omega arith)
busy_order l (i ∷ is) e h = refl

others_or_stored :
    (k g : ℕ) (m m' : Map FrameBuffer) (fb : FrameBuffer)
    → ((k == g) ≡ false → lookup g m' ≡ lookup g m)
    → lookup k m' ≡ some fb
    → lookup g m' ≡ (if k == g then some fb else lookup g m)
others_or_stored k g m m' fb other here = elim (Bool-cases (k == g)) [
  | inl e ↦ rw e (ap (λ (j : ℕ). lookup j m') (sym ((==_iff k g).0 e)) ∙ here)
  | inr ne ↦ rw ne (other ne)
]

-- The frame is sent from `m` without an error, as the datagrams `out`; the viewer `c` takes them in
-- by the order given without an error, has the frame's bytes under the frame's number, has
-- announced the number once, and has all other buffers and the bitmaps as before.
abbrev pub Delivered :
    {B : Type 0} → StreamFrame → ℕ → PacketManager → List ℕ → (ℕ → Bytes) → Viewer B → Type 0
Delivered {B} f frame_num m order junk c =
    (m' : PacketManager) × (out : List Bytes) × (c' : Viewer B) × (fb : FrameBuffer) × (send_frame f
        frame_num m
      ≡ ok m')
    × (m'.sent ≡ m.sent ++ out)
    × (deliver (map (λ i. (junk i, get_or out i [])) order) c ≡ ok c')
    × (fb.chunks ≡ f.bytes)
    × ((g : ℕ)
        → lookup g c'.active_frames
          ≡ (if frame_num == g then some fb else lookup g c.active_frames))
    × (c'.frame_num_queue ≡ c.frame_num_queue ++ frame_num ∷ [])
    × (c'.packet_queue ≡ [])
    × (c'.bitmaps ≡ c.bitmaps)
    × (m'.sequence_number < dword)

-- A frame of the sample host's packet size, with between 1 and 65535 * 4060 bytes, is sent
-- without an error, when its number and the host's sequence number are below 2 ^ 32. If the
-- viewer has no packet in its queue and no buffer for that frame number, then it takes in the
-- datagrams that went out, each of them once, in any order whatever and whatever memory held
-- behind them, without an error. Afterwards it has a buffer with the frame's bytes, it announced
-- the frame to the decoder exactly once, and the buffers of all other frames and the bitmaps that
-- wait are as they were. Its packet queue is empty again, and the host's sequence number is below
-- 2 ^ 32 again.
pub deliver-send_frame :
    {B : Type 0} (f : StreamFrame) (v : Fits f) (frame_num : ℕ) (m : PacketManager) (order : List ℕ)
    (junk : ℕ → Bytes) (c : Viewer B)
    → frame_num < dword
    → m.sequence_number < dword
    → 0 < length f.bytes
    → Perm order (range_from 0 (total_packets f))
    → c.packet_queue ≡ []
    → lookup frame_num c.active_frames ≡ none
    → Delivered f frame_num m order junk c
deliver-send_frame {B} f v frame_num m order junk c hf hs pos perm quiet fresh =
    let n = total_packets f in
    let out = fragments n 0 f frame_num m.sequence_number in
    let s : ℕ → ℕ = λ i. (m.sequence_number + i) % dword in
    let bound : (i : ℕ) → Mem i order → i < n =
      λ i h. omega (arith, lt_of_mem-range_from i 0 n ((Perm.mem_iff perm).0 h)) in
    let total : sum_chunks (length f.bytes) order ≡ length f.bytes =
      sum_chunks-perm (length f.bytes) perm
      ∙ sum_chunks-range_from (length f.bytes) 0 n (omega (arith, total_packets-Fits f v))
      ∙ omega arith in
    let (m', run, sent) = send_frame-Sent f v frame_num m hs in
    let (c', took, after, queue) =
      deliver-TakenIn f v frame_num hf junk s (λ i. omega arith) order 0 c bound
        (omega (arith, total)) (Progress-new f v frame_num hf c fresh) quiet in
    let busy : is_empty order ≡ false = busy_order (length f.bytes) order total pos in
    (
      m',
      out,
      c',
      next_buffer (length f.bytes) frame_num c',
      run,
      sent.sent,
      ap (λ (ps : List (Bytes × Bytes)). deliver ps c)
            (map_on_members (λ i. (junk i, get_or out i []))
              (λ i. (junk i, fragment f frame_num (s i) i)) order
              (λ i h.
                ap (λ (b : Bytes). (junk i, b))
                  (get_or-fragments n 0 i f frame_num m.sequence_number (bound i h) hs
                    ∙ ap (fragment f frame_num (s i)) (omega arith))))
          ∙ took,
      chunks_complete f v (next_buffer (length f.bytes) frame_num c') after.progress.sized
          (λ i j hi hj lo hi'.
            after.filled i j
              ((Perm.mem_iff perm).1 (mem-range_from i 0 n (omega arith) (omega arith))) hj lo hi'),
      λ g.
          others_or_stored frame_num g c.active_frames c'.active_frames _ (after.others g)
            (after.stored busy),
      queue
          ∙ ap (λ (b : Bool). if b then c.frame_num_queue else c.frame_num_queue ++ frame_num ∷ [])
              busy,
      after.empty,
      after.waiting,
      omega (arith, sent.sequence_number),
    )
