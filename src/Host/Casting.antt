-- ===== src/Host/Casting.antt =====
-- VideoHost/main.cpp: the thread of `main` captures frames while `senderThread` sends them, from when
-- `main` has called `setStreamType` and `setFrameSize`. One step is a round of `initStream` or a round
-- of `sendStream`; the queue between them is a list.
pub mod Carried
use lllsi.Base.{ℕ, ◌+◌, ◌%◌, ◌≡◌, List, [], ◌∷◌, ◌++◌, ok, true}
use lllsi.Packet.{Bytes, dword, packet_type_stream}
use lllsi.Assembly.{StreamSettings, new_stream, set_stream_type, set_frame_size}
use lllsi.Video.{FrameData, CaptureAnswers, VideoStream, destroy, stream_round}
use lllsi.Video.Locks.{Documented}
use lllsi.Host.{packet_size, PacketManager, StreamFrame, send_frame}

-- What `main` stores before it starts to capture.
unfoldable pub screen_stream : StreamSettings
unfolding set_stream_type set_frame_size
screen_stream = set_frame_size packet_size (set_stream_type packet_type_stream new_stream)

pub record Cast : Type 0 where
  pub video : VideoStream
  pub manager : PacketManager
  pub frame_num : ℕ

-- The front frame is taken from the container, and let go when its round is over.
unfoldable pub let_go : FrameData → List FrameData → VideoStream → VideoStream
unfolding destroy
let_go f rest v = record {
  video_capture = record v.video_capture { locked = destroy f v.video_capture.locked };
  stream_container = rest;
}

-- What the stream answers to a round of `sendStream`, with the `getSize` bytes behind
-- `getBytesDataPtr`.
unfoldable pub outgoing : (contents : FrameData → Bytes) → FrameData → StreamFrame
unfolding screen_stream
outgoing contents f = record {
  chunk_size = screen_stream.frame_size;
  stream_type = screen_stream.stream_type;
  bytes = contents f;
}

pub data Step (contents : FrameData → Bytes) (c : Cast) : Cast → Type 0 where
  captures :
      (a : CaptureAnswers)
      → Documented a
      → Step contents c (record c { video = stream_round a c.video })
  sends :
      (f : FrameData) (rest : List FrameData) (m : PacketManager)
      → c.video.stream_container ≡ f ∷ rest
      → send_frame (outgoing contents f) c.frame_num c.manager ≡ ok m
      → Step contents c (record {
        video = let_go f rest c.video;
        manager = m;
        frame_num = (c.frame_num + 1) % dword;
      })

pub data Reach (contents : FrameData → Bytes) (start : Cast) : Cast → Type 0 where
  begins : Reach contents start start
  later : {c d : Cast} → Reach contents start c → Step contents c d → Reach contents start d

-- The answers that the rounds of capturing had, in their order.
abbrev pub answered :
    {contents : FrameData → Bytes} {start c : Cast} → Reach contents start c → List CaptureAnswers
answered begins = []
answered (later r (captures a d)) = answered r ++ a ∷ []
answered (later r (sends f rest m e run)) = answered r

-- Nothing is captured and nothing sent.
abbrev pub start_cast : (selected h_bmp : ℕ) → Cast
start_cast selected h_bmp = record {
  video = record {
    video_capture = record { selected = selected; h_bmp = h_bmp; locked = [] };
    stream_container = [];
  };
  manager = record { recent_packets = []; ack_flag = true; sequence_number = 0; sent = [] };
  frame_num = 0;
}
