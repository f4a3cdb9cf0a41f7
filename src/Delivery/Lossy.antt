-- ===== src/Delivery/Lossy.antt =====
-- VideoClient/main.cpp: datagrams of a frame that are lost, come twice and come in any order.
use mathlib.Core.List.{Mem, mem-cons_self, mem-cons_of_mem}
use lllsi.Base.{
  ℕ, ◌+◌, ◌*◌, ◌/◌, ◌%◌, ◌≤◌, ◌<◌, ◌≡◌, refl, ap, sym, ◌∙◌, Bool, true, false, ◌||◌, inl, inr, List,
  [], ◌∷◌, ◌++◌, append_assoc, append-nil, ◌==◌, ==_iff, ==_self, leb, Bool-cases, if◌then◌else◌,
  map, length, get_elem?, get_elem?-overwrite_out, get_or, get_elem?-replicate, lookup, none, some,
  Option, ok, arith,
}
use lllsi.Packet.{Bytes, dword}
use lllsi.Host.{StreamFrame, PacketManager, total_packets, send_frame}
use lllsi.Host.Sending.{send_frame-Sent}
use lllsi.Delivery.{get_or-fragments, map_on_members}
use lllsi.Host.Fragments.{
  payload_bytes, Fits, chunk_size_of, chunk, fragment, fragments, length-chunk, total_packets-Fits,
}
use lllsi.Viewer.{Viewer, FrameBuffer, or_empty, open_frame}
use lllsi.Delivery.Buffer.{with_chunk, Agrees-covered}
use lllsi.Delivery.Step.{Progress, Progress-new, next_buffer}
use lllsi.Delivery.Turn.{deliver, turn_lem}
use lllsi.Delivery.Order.{sum_chunks}

-- Did the packet come?
abbrev pub arrived : List ℕ → ℕ → Bool
arrived [] p = false
arrived (i ∷ is) p = (i == p) || arrived is p

-- A frame of `l` bytes is announced whenever what was counted comes to `l`, `t` having been counted
-- before.
abbrev pub announced : (l frame_num t : ℕ) → List ℕ → List ℕ
announced l frame_num t [] = []
announced l frame_num t (i ∷ is) =
    let rest = announced l frame_num ((t + chunk_size_of l i) % dword) is in
    if (t + chunk_size_of l i) % dword == l then frame_num ∷ rest else rest

same_bytes :
    {x z : Option ℕ} (y w : Option ℕ) (a b : Bool)
    → x ≡ (if b then y else z)
    → z ≡ (if a then y else w)
    → x ≡ (if a || b then y else w)
same_bytes y w true true e g = e
same_bytes y w true false e g = e ∙ g
same_bytes y w false true e g = e
same_bytes y w false false e g = e ∙ g

queue_on :
    (frame_num : ℕ) (q q1 q2 rest : List ℕ) (b : Bool)
    → q1 ≡ (if b then q ++ frame_num ∷ [] else q)
    → q2 ≡ q1 ++ rest
    → q2 ≡ q ++ (if b then frame_num ∷ rest else rest)
queue_on frame_num q q1 q2 rest true e g =
    g ∙ ap (λ (z : List ℕ). z ++ rest) e ∙ append_assoc q (frame_num ∷ []) rest
queue_on frame_num q q1 q2 rest false e g = g ∙ ap (λ (z : List ℕ). z ++ rest) e

module _ (f : StreamFrame) (v : Fits f) (frame_num : ℕ) (hf : frame_num < dword) where
  -- What a packet changes in the buffer, byte by byte.
  chunk_bytes :
      (i j : ℕ) (fb : FrameBuffer)
      → i < total_packets f
      → length fb.chunks ≡ length f.bytes
      → j < length f.bytes
      → get_elem? (with_chunk f i fb).chunks j
        ≡ (if i == j / payload_bytes then get_elem? f.bytes j else get_elem? fb.chunks j)
  chunk_bytes i j fb h e hj = elim (Bool-cases (i == j / payload_bytes)) [
    | inl here ↦
        let at : i ≡ j / payload_bytes = (==_iff i (j / payload_bytes)).0 here in
        rw here
          (Agrees-covered f v frame_num hf i j fb h e hj (omega (arith, at)) (omega (arith, at)))
    | inr other ↦ rw other (elim (Bool-cases (leb (i * payload_bytes) j)) [
      | inr before ↦
          (get_elem?-overwrite_out fb.chunks (i * payload_bytes) (chunk f.bytes i) j).0 before
      | inl behind ↦
          (get_elem?-overwrite_out fb.chunks (i * payload_bytes) (chunk f.bytes i) j).1
            (ground (arith, length-chunk f v i))
    ])
  ]

module _ {B : Type 0} (f : StreamFrame) (v : Fits f) (frame_num : ℕ) (hf : frame_num < dword) where
  -- The viewer `c'` has taken in the packets numbered `is`; `t` bytes were counted before.
  pub record TookIn (is : List ℕ) (t : ℕ) (c c' : Viewer B) : Type 0 where
    pub progress : Progress f frame_num ((t + sum_chunks (length f.bytes) is) % dword) c'
    pub empty : c'.packet_queue ≡ []
    pub waiting : c'.bitmaps ≡ c.bitmaps
    pub others :
        (g : ℕ) → (frame_num == g) ≡ false → lookup g c'.active_frames ≡ lookup g c.active_frames
    pub bytes :
        (j : ℕ)
        → j < length f.bytes
        → get_elem? (next_buffer (length f.bytes) frame_num c').chunks j ≡ (
            if arrived is (j / payload_bytes)
            then get_elem? f.bytes j
            else get_elem? (next_buffer (length f.bytes) frame_num c).chunks j)
    pub queued : c'.frame_num_queue ≡ c.frame_num_queue ++ announced (length f.bytes) frame_num t is

  deliver-TookIn :
      (junk : ℕ → Bytes) (s : ℕ → ℕ)
      → ((i : ℕ) → s i < dword)
      → (is : List ℕ) (t : ℕ) (c : Viewer B) → ((i : ℕ) → Mem i is → i < total_packets f)
      → t < dword
      → Progress f frame_num t c
      → c.packet_queue ≡ []
      → (c' : Viewer B) × (deliver (map (λ i. (junk i, fragment f frame_num (s i) i)) is) c ≡ ok c')
        × TookIn is t c c'
  unfolding deliver
  deliver-TookIn junk s hs [] t c bound small p e = (
    c,
    refl,
    record {
      progress = record {
        sized = p.sized;
        expected = p.expected;
        counted = p.counted ∙ omega arith;
      };
      empty = e;
      waiting = refl;
      others = λ g ne. refl;
      bytes = λ j hj. refl;
      queued = sym (append-nil c.frame_num_queue);
    },
  )
  deliver-TookIn junk s hs (i ∷ is) t c bound small p e =
      let L = length f.bytes in
      let u = (t + chunk_size_of L i) % dword in
      let (c1, run1, turned) =
        turn_lem f v frame_num hf i (s i) t (junk i) c (hs i) (bound i mem-cons_self) p e in
      let (c2, run2, took) =
        deliver-TookIn junk s hs is u c1 (λ k m. bound k (mem-cons_of_mem i m)) (omega arith)
          turned.progress turned.empty in
      (
        c2,
        rw run1 run2,
        record {
          progress = record {
            sized = took.progress.sized;
            expected = took.progress.expected;
            counted = took.progress.counted ∙ omega arith;
          };
          empty = took.empty;
          waiting = took.waiting ∙ turned.waiting;
          others = λ g ne. took.others g ne ∙ turned.others g ne;
          bytes = λ j hj.
              same_bytes (get_elem? f.bytes j) (get_elem? (next_buffer L frame_num c).chunks j)
                (i == j / payload_bytes) (arrived is (j / payload_bytes)) (took.bytes j hj)
                (ap (λ (fb : FrameBuffer). get_elem? fb.chunks j) turned.copied
                  ∙ chunk_bytes f v frame_num hf i j (next_buffer L frame_num c)
                      (bound i mem-cons_self) p.sized hj);
          queued =
              queue_on frame_num c.frame_num_queue c1.frame_num_queue c2.frame_num_queue
                (announced L frame_num u is) (u == L) turned.queued took.queued;
        },
      )

-- The frame is sent from `m` without an error, as the datagrams `out`. The viewer `c` takes in those
-- of them that are listed, without an error.
abbrev pub Scattered :
    {B : Type 0} → StreamFrame → ℕ → PacketManager → List ℕ → (ℕ → Bytes) → Viewer B → Type 0
Scattered {B} f frame_num m is junk c =
    (m' : PacketManager) × (out : List Bytes) × (c' : Viewer B) × (send_frame f frame_num m ≡ ok m')
    × (m'.sent ≡ m.sent ++ out)
    × (deliver (map (λ i. (junk i, get_or out i [])) is) c ≡ ok c')
    × ((j : ℕ)
        → j < length f.bytes
        → get_elem? (next_buffer (length f.bytes) frame_num c').chunks j
          ≡ (if arrived is (j / payload_bytes) then get_elem? f.bytes j else some 0))
    × (c'.frame_num_queue ≡ c.frame_num_queue ++ announced (length f.bytes) frame_num 0 is)
    × ((g : ℕ) → (frame_num == g) ≡ false → lookup g c'.active_frames ≡ lookup g c.active_frames)
    × (c'.bitmaps ≡ c.bitmaps)

fresh_bytes :
    {B : Type 0} (l frame_num j : ℕ) (c : Viewer B)
    → lookup frame_num c.active_frames ≡ none
    → j < l
    → get_elem? (next_buffer l frame_num c).chunks j ≡ some 0
unfolding open_frame
fresh_bytes l frame_num j c fresh h =
    ap (λ (o : Option FrameBuffer). get_elem? (open_frame l frame_num (or_empty o)).chunks j) fresh
    ∙ get_elem?-replicate l j 0 h

-- A frame of the sample host's packet size, with at most 65535 * 4060 bytes, is sent without an
-- error, when its number and the host's sequence number are below 2 ^ 32. Whichever of its datagrams
-- then come, in any order, some of them lost and some more than once, a viewer with no packet in its
-- queue and no buffer for the frame takes them in without an error. In the buffer each byte whose
-- packet came is the frame's, and every other is 0. The frame is announced as often as what came so
-- far, repetitions counted again, comes to the frame's size modulo 2 ^ 32; all other buffers and
-- the bitmaps are as before.
pub deliver-Scattered :
    {B : Type 0} (f : StreamFrame) (v : Fits f) (frame_num : ℕ) (m : PacketManager) (is : List ℕ)
    (junk : ℕ → Bytes) (c : Viewer B)
    → frame_num < dword
    → m.sequence_number < dword
    → ((i : ℕ) → Mem i is → i < total_packets f)
    → c.packet_queue ≡ []
    → lookup frame_num c.active_frames ≡ none
    → Scattered f frame_num m is junk c
deliver-Scattered {B} f v frame_num m is junk c hf hs bound quiet fresh =
    let out = fragments (total_packets f) 0 f frame_num m.sequence_number in
    let s : ℕ → ℕ = λ i. (m.sequence_number + i) % dword in
    let (m', run, sent) = send_frame-Sent f v frame_num m hs in
    let (c', took, all) =
      deliver-TookIn f v frame_num hf junk s (λ i. omega arith) is 0 c bound (omega arith)
        (Progress-new f v frame_num hf c fresh) quiet in
    (
      m',
      out,
      c',
      run,
      sent.sent,
      ap (λ (ps : List (Bytes × Bytes)). deliver ps c)
            (map_on_members (λ i. (junk i, get_or out i []))
              (λ i. (junk i, fragment f frame_num (s i) i)) is
              (λ i h.
                ap (λ (b : Bytes). (junk i, b))
                  (get_or-fragments (total_packets f) 0 i f frame_num m.sequence_number (bound i h)
                      hs
                    ∙ ap (fragment f frame_num (s i)) (omega arith))))
          ∙ took,
      λ j hj.
          all.bytes j hj
          ∙ ap (λ (o : Option ℕ). if arrived is (j / payload_bytes) then get_elem? f.bytes j else o)
              (fresh_bytes (length f.bytes) frame_num j c fresh hj),
      all.queued,
      all.others,
      all.waiting,
    )

counted_full :
    (m a i : ℕ)
    → m * payload_bytes < dword
    → a < m
    → i < m
    → (a * payload_bytes + chunk_size_of (m * payload_bytes) i) % dword ≡ (a + 1) * payload_bytes
counted_full m a i small h g = omega arith

-- Full packets only: the count reaches the size with the last of as many packets as there are.
announced_full :
    (m frame_num a : ℕ) (is : List ℕ)
    → m * payload_bytes < dword
    → 0 < length is
    → a + length is ≡ m
    → ((i : ℕ) → Mem i is → i < m)
    → announced (m * payload_bytes) frame_num (a * payload_bytes) is ≡ frame_num ∷ []
announced_full m frame_num a [] small some_left whole bound = absurd (omega arith)
announced_full m frame_num a (i ∷ []) small some_left whole bound =
    ap (λ (u : ℕ). if u == m * payload_bytes then frame_num ∷ [] else [])
      (counted_full m a i small (omega (arith, whole)) (bound i mem-cons_self)
        ∙ ap (λ (n : ℕ). n * payload_bytes) whole)
    ∙ ap (λ (b : Bool). if b then frame_num ∷ [] else []) (==_self (m * payload_bytes))
announced_full m frame_num a (i ∷ k ∷ is) small some_left whole bound =
    let l = m * payload_bytes in
    let early : ((a + 1) * payload_bytes == l) ≡ false = ground arith in
    ap
      (λ (u : ℕ).
        if u == l
        then frame_num ∷ announced l frame_num u (k ∷ is)
        else announced l frame_num u (k ∷ is))
      (counted_full m a i small (omega (arith, whole)) (bound i mem-cons_self))
    ∙ rw early (
        announced_full m frame_num (a + 1) (k ∷ is) small (omega arith) (omega (arith, whole))
          (λ n h. bound n (mem-cons_of_mem i h)))

-- A packet is missing, and the frame announced all the same.
abbrev pub Torn :
    {B : Type 0}
    → StreamFrame
    → ℕ
    → List ℕ
    → (ℕ → Bytes)
    → PacketManager
    → (missing : ℕ) → Viewer B
    → Type 0
Torn {B} f frame_num is junk m missing c =
    (m' : PacketManager) × (out : List Bytes) × (c' : Viewer B) × (send_frame f frame_num m ≡ ok m')
    × (m'.sent ≡ m.sent ++ out)
    × (deliver (map (λ i. (junk i, get_or out i [])) is) c ≡ ok c')
    × (c'.frame_num_queue ≡ c.frame_num_queue ++ frame_num ∷ [])
    × ((j : ℕ)
        → missing * payload_bytes ≤ j
        → j < (missing + 1) * payload_bytes
        → get_elem? (next_buffer (length f.bytes) frame_num c').chunks j ≡ some 0)

-- A frame of the sample host's packet size that fills `n` packets, 0 < `n`, is sent without an error,
-- when its number and the host's sequence number are below 2 ^ 32. If a viewer with no packet in its
-- queue and no buffer for the frame takes in `n` of its datagrams, repetitions counted, and the packet
-- `missing` is not among them, then the frame is announced to the decoder once, with 0 in place of
-- the bytes of that packet.
pub deliver-Torn :
    {B : Type 0} (f : StreamFrame) (v : Fits f) (frame_num : ℕ) (m : PacketManager) (n missing : ℕ)
    (is : List ℕ) (junk : ℕ → Bytes) (c : Viewer B)
    → frame_num < dword
    → m.sequence_number < dword
    → length f.bytes ≡ n * payload_bytes
    → 0 < n
    → length is ≡ n
    → ((i : ℕ) → Mem i is → i < n)
    → missing < n
    → arrived is missing ≡ false
    → c.packet_queue ≡ []
    → lookup frame_num c.active_frames ≡ none
    → Torn f frame_num is junk m missing c
deliver-Torn {B} f v frame_num m n missing is junk c hf hs full pos as_many bound inside lost quiet
      fresh =
    let packets : total_packets f ≡ n = omega (arith, total_packets-Fits f v, full) in
    let (m', out, c', run, sent, took, bytes, queued, others, waiting) =
      deliver-Scattered f v frame_num m is junk c hf hs (λ i h. omega (arith, bound i h, packets))
        quiet fresh in
    (
      m',
      out,
      c',
      run,
      sent,
      took,
      queued
          ∙ ap (λ (ks : List ℕ). c.frame_num_queue ++ ks)
              (ap (λ (l : ℕ). announced l frame_num 0 is) full
                ∙ announced_full n frame_num 0 is (omega (arith, v.bytes, full))
                    (omega (arith, as_many)) (omega (arith, as_many)) bound),
      λ j lo hi.
          bytes j (omega (arith, full))
          ∙ ap (λ (p : ℕ). if arrived is p then get_elem? f.bytes j else some 0) (omega arith)
          ∙ ap (λ (b : Bool). if b then get_elem? f.bytes j else some 0) lost,
    )
