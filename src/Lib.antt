-- ===== src/Lib.antt =====
-- Models of the SimonSays firmware (firmware/core, firmware/main, firmware/port/esp), its server (server) and
-- its tools (tools/host), with the theorems that make them correct. The device sleeps until a sound wakes
-- it, confirms the wake word, connects, and streams PCM to the server as a chunked HTTP request; the server
-- parses the stream as it arrives, feeds the samples to a speech-to-text backend, matches intents, and cuts
-- the connection when its timers say so.
--
-- Which file models which part:
--   Base           names, numbers and lists that all modules share; a C integer of w bits keeps its
--                  wrap-around written out, C arrays are lists; Base/Int holds signed integers
--   RingBuf        firmware/core/src/ringbuf.c: `ringbuf_t` is a record, each function one definition;
--                  RingBuf/Trace holds the specification, a bounded queue of bytes
--   Fsm            firmware/core/src/fsm.c: `fsm_dispatch` as a reducer; Fsm/Graph holds the transition
--                  diagram, an indexed data type
--   Power          firmware/core/src/power.c: the counters and the calls of the backend
--   App            firmware/core/src/app.c: `app_run_cycle` and `app_run` over the injected hooks
--   StreamProto    firmware/core/src/net/stream_proto.c: the encoders of the client
--   StreamClient   firmware/core/src/net/stream_client.c: the streaming session of the client
--   Mic            firmware/port/esp/mic_i2s.c: reading samples, and the source of PCM that ends with the speech
--   NetSocket      firmware/port/esp/net_socket.c: the transport over a socket
--   PosixTransport tools/host/posix_transport.c: the same over a POSIX socket, with samples from memory
--   Device         firmware/main/app_main.c: the hooks over these two, and the main loop
--   Quant          firmware/core/src/nn/quant.c: requantisation in integers
--   Kernels        firmware/core/src/nn/kernels.c: the layers, and the choice of a class
--   KwsModel       firmware/core/src/kws_model.c, and the small network of firmware/core/src/kws.c
--   HttpIngest     server/src/http_ingest.c: `http_ingest_feed`, all its states; HttpIngest/Feed holds
--                  the specification, an automaton on single bytes, HttpIngest/Headers the request's head
--   RoundTrip      the client's encoder against the server's parser; RoundTrip/Session a whole session
--   Debounce       server/src/debounce.c: the timers, over a clock of 32 bits that wraps
--   Vad, Intent, SttStub, Session
--                  server/src/vad.c, intent.c, stt_stub.c and session.c
--   SttWhisper     server/src/stt_whisper.c: utterances, the text of one, and the backend
--   Server         server/src/main.c: the life of a connection, `handle_conn`, and its response
--   Config         server/src/config.c: the default intents and timers
--   Wav            tools/host/wav.c: the reader and the writer
--   Tests          each theorem applied at a concrete input
--
-- How the parts interact: the application dispatches events to the state machine and calls the power
-- controller and the hooks; the hooks of the device run the streaming client over the microphone and the
-- socket; the client's stream enters the parser, whose payload callback is the session's `session_on_pcm`; the
-- session calls the backend, the intent table and the timers, and the connection is closed when they say so.
-- Callbacks are parameters of the definitions (`none` for a NULL pointer) with the state behind their
-- `user` or `ctx` pointer passed through; what the theorems ask of them stands in named predicates
-- (`Answers`, `Keeps`, `SplitsFor`, `FeedSplits`, `Drains`, `IsBackend`, `Progresses`, `ReadsUpTo`,
-- `Carries`). Drivers and libraries are parameters too: the records `Mic`, `Sockets`, `HostSockets` and
-- `Board`, `whisper_full`, `malloc` and `realloc`, with `ReadsFit`, `Adds` and the interruptions of the
-- sockets for what the code relies on.
--
-- Loops run on fuel where the recursion is not structural: four rounds for a wake cycle, one for each
-- byte of a buffer, one for each sample of a payload and for each waiting transcript, one for each byte
-- that is sent, one for each byte of a WAV file. That is enough as a cycle passes each of its three hooks at
-- most once, and as a round of the other loops takes at least one byte, one sample or one transcript. The
-- reads of the microphone and the sends of a socket recur on what is left.
--
-- Not modelled: the signal processing, the softmax and the decision over its probabilities (floating point),
-- whisper.cpp and the sockets' own code (third parties), starting I2S, Wi-Fi and deep sleep (the vendor's SDK),
-- arguments, listening and printing in the programs around the core, and the Python training framework. Counters
-- of type `int` are exact below 2^31. A call of a driver or of the system is a function, so that it returns.
pub mod Base
pub mod Power
pub mod Fsm
pub mod App
pub mod Debounce
pub mod RingBuf
pub mod StreamProto
pub mod StreamClient
pub mod HttpIngest
pub mod RoundTrip
pub mod Vad
pub mod Intent
pub mod SttStub
pub mod SttWhisper
pub mod Session
pub mod Config
pub mod Server
pub mod Wav
pub mod Mic
pub mod NetSocket
pub mod PosixTransport
pub mod Device
pub mod Quant
pub mod Kernels
pub mod KwsModel
mod Tests
