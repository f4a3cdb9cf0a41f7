-- ===== src/Lib.antt =====
-- LLLSI: remote control of a computer over the network. The host (VideoHost) streams its screen as
-- numbered UDP datagrams, the viewer (VideoClient) acknowledges them, puts the frames together and
-- shows them, and sends mouse and keyboard events back. A room server (RDIBY/server.cpp) tells the
-- two their addresses. RDIBY is the library that the programs copy.
--
-- Which file models which part:
--   Packet           the structs of RDIBY/protocols.h and VideoHost/protocol.h and their bytes
--   Packet/Codec     reading back the bytes of a struct
--   Host             VideoHost/host.h `sendStream`, VideoHost/host.cpp `sendPacket`, `ackPackets`;
--                    the state is `PacketManager`, with the datagrams sent so far in `sent`
--   Host/Incoming    VideoHost/host.cpp `handleIncomingPackets` and the handlers of main.cpp;
--                    Host/Setup has the constructor and the destructor, Host/Casting the thread that
--                    captures and the thread that sends at once
--   Viewer           VideoClient/main.cpp `receiverThread`, `consumerThread`; the state is `Viewer`
--   Viewer/Display   VideoClient/main.cpp `decoderThread`, `timerThread`, WM_PAINT of `WndProc`
--   Viewer/Drawing   the objects behind them: `decodeImage`, `displayFrame`; Viewer/Released counts them
--   Delivery         a frame's way from the host to the viewer; Delivery/Screen follows it to the window,
--                    Delivery/Lossy has datagrams that are lost or come twice
--   Queue            RDIBY/datastructures.h, over a semaphore given as operations and laws;
--                    Queue/Interleaving has threads between the steps, Queue/Refinement compares them
--                    with an atomic queue; Queue/Order, Queue/Frames and Queue/Service have a
--                    producer and a consumer
--                    Queue/Locked takes the threads line by line, with the critical section
--   Threads          RDIBY/concurrency.cpp ThreadManager; Threads/Sections has CriticalSection over
--                    the operations and laws of Windows, Threads/Waiting RDIBY's
--                    `ConditionVariable::sleep`, Threads/Slept what it leads to
--   Room             RDIBY/room.cpp; clients and rooms are in stores by pointer, 0 is nullptr
--   Room/Server      RDIBY/server.cpp `endRoom`, and the reading of a client's first message
--   Room/Handler     RDIBY/server.cpp `clientHandlerFunc`; `client_loop` takes the messages
--   Room/Entry, Room/Introduction, Room/Leaving, Room/Faults
--                    how rooms open and fill, how they end, who hangs up then, and what breaks them
--   Room/System      many clients at once: the rounds of their threads in any order, none of which
--                    overlaps another; Room/System/Invariant has what holds then, and Overlap what
--                    goes wrong when one does; Room/Restart has a host that goes on after its start
--   Assembly         RDIBY/client.cpp PacketManager, FramePacketsStream and FrameBufferStream;
--                    Assembly/Bounds runs it on the host's packets, Assembly/Answers on its answers
--   Sockets          RDIBY/client.cpp `initTCP`, `initUDP`; RDIBY/serverNetwork.cpp `init`,
--                    `acceptNewConnection`; RDIBY/server.cpp `acceptFunc`; Sockets/HostSide has
--                    RDIBY/host.cpp
--   Handshake        RDIBY/client.cpp `firstServerInteraction`; Handshake/Greeting has it against
--                    the server's reading
--   Peer             RDIBYClient/clienttest.cpp, the host's and a member's program; Peer/Met runs
--                    them on what the server's `endRoom` sends
--   Session          a whole room: the handshakes, the server's handlers, the start, and the programs
--                    at the other ends
--   Video            RDIBY/video.cpp: capturing, the locks on frames, the choice of the encoder
--   Mediator         RDIBY/IActionMediator.h: listeners and who may ask for an action
--   Examples         the theorems at concrete inputs
--   Events           VideoClient/main.cpp `eventSenderThread`, RDIBY/events.cpp, and
--                    VideoHost/main.cpp `convertPacketToINPUT`; Events/Hooks has the hooks
--
-- Integers are natural numbers; the wrap-around of WORD, DWORD and SIZE_T is written out. Structs
-- have the layout of the compiler: little-endian, naturally aligned, padding taken as zero. Loops
-- are structural recursion on the number of rounds that the source computes before it starts, or on
-- a list, so no fuel is needed.
-- Undefined behaviour and exceptions are values of `Base.Error`.
--
-- Not modelled: windows, GDI+ and WinSock themselves, the JPEG codec, and the timing of threads. A
-- mutex-guarded block or one round of a thread's loop is one step. What these libraries answer is an
-- argument of the model.
--
-- The rounds of the server's handler threads take no lock in the source. That they do not overlap is a
-- condition of the theorems of Room/System/Invariant. VideoClient/concurrency.cpp's condition variable,
-- whose section is deleted before its use, is not modelled, nor is what a handler thread reads through
-- the pointer to the local of `acceptFunc` that is gone by then.
pub mod Base
pub mod Packet
pub mod Host
pub mod Viewer
pub mod Delivery
pub mod Assembly
pub mod Events
pub mod Handshake
pub mod Mediator
pub mod Peer
pub mod Queue
pub mod Room
pub mod Session
pub mod Sockets
pub mod Threads
pub mod Video
mod Examples
