-- ===== src/Lib.antt =====
-- Two ESP32 boards agree on a key with EDHOC over ESP-NOW and then encrypt their link with it. This
-- library models the firmware of one board, an initiator or a responder by its build.
--
-- The parts, from the radio up:
-- - Platform: what the firmware calls and this repository does not contain, ESP-IDF, FreeRTOS,
--   mbedTLS and the Lakers library, as functions over an abstract world. They are parameters
--   everywhere.
-- - Firmware: the statics of the C files and of the Rust library as one record, and the monad in
--   which the functions run. A call returns, or aborts the board (ESP_ERROR_CHECK, abort, a Rust
--   panic), or is a fault: an access outside an array. `Returns` and `Ensures` state what holds
--   after a call; neither admits a fault, and `Returns` does not admit an abort.
-- - Memory, Packet, Config: arrays and memcpy, the packets of main/espnow_transport.h, and the
--   settings of main/device_config.h.
-- - EspNow: main/espnow_transport.c, with the receive callback and the queue. EspNow/Receiving and
--   EspNow/Peers prove what is received and what a peer's entry is, EspNow/Start what the
--   initialisation leaves. EspNow/Traffic takes callback and receive together, in any order.
-- - Wire: main/edhoc_transport.c, edhoc_transport_send and edhoc_transport_parse_rx. Wire/Sending,
--   Wire/Receiving and Wire/RoundTrip prove what is sent, what is parsed, and the two together.
-- - Session: components/lakers_ffi/rust/src/lib.rs, the session behind the C interface, its
--   credentials, and in Session/Messages the calls for each message and the export of the key.
--   Session/Protocol is the abstract view: phases, and which call moves which phase, and
--   Session/Messages/Authentic what the Lakers library has answered when a call succeeds, and the
--   bytes that the call leaves.
--   Session/Messages/Handshake has the calls of two boards, each on the message of the other.
--   Session/Random is the random number generator that lib.rs gives to the library.
-- - KeyManager: main/key_manager.c, with Install for the key of the handshake and Static for the fixed
--   one.
-- - Pairing: main/main.c. The helpers stand in Pairing, handle_received_message in Pairing/Handler
--   with a function for each message that a state waits for, and app_task in Pairing/App. Steps,
--   Invariant, Loop, Reachable and Failed prove where these lead, Timing when an initiator starts;
--   Key is about the key that is installed, and Agreement compares the keys of two boards.
-- - Ffi, Boot, Trace: components/lakers_ffi/lakers_ffi_component.c, app_main, and the vectors of
--   main/edhoc_trace_vectors.c. Ffi/SelfTest compares the transforms of the C side and of the Rust
--   side, with a mask each, and Trace/Verify is about the comparison with a vector. Boot/Ready and
--   Boot/Start prove what a boot leaves for the application task, Boot/Safety joins it to the loop,
--   and Boot/Peer is about the peer address that a board accepts.
-- - Exporter: main/edhoc_exporter.c, the summary of the key that goes to the log.
-- - Tests: a small platform, on which the theorems are applied.
--
-- Conventions. A pointer that may be NULL is an Option. An array is a list of bytes, and a copy that
-- leaves its array gives `none`, which is a fault in the monad. Values of uint8_t and uint16_t are
-- native numbers with the wrap-around written out where the code narrows; the size of a packet is a
-- signed number, as in C. The handlers return the new pairing state instead of writing through a
-- pointer. The endless loop of app_task is modelled by its round, and a run of it as a relation of
-- rounds and arriving frames, so that no fuel is needed. An application task of its own calls the
-- Lakers session, as lib.rs requires, so its calls are not interleaved.
--
-- What the proofs ask of the parameters: messages of the Lakers library hold at most 192 bytes and
-- its exporter fills the slice (MessagesFit), the queue gives back packets (QueueDelivers) and, for
-- Traffic, is first in, first out (QueueContract), esp_read_mac gives six bytes (ReadsMac), Rust's
-- rotate_left rotates (RotatesLeft), the two ends of a handshake export alike (ExportAlike), and
-- the library completes a handshake between ends that fit (HandshakeCompletes).
--
-- The proofs on the handlers are done once for `Upto X`, which admits an abort only if X: with X the
-- unit type they cover any driver, and with X empty a driver that takes every frame (Sends).
--
-- Not modelled: the text of the log, and the clearing of buffers after use, which no result depends
-- on (the reads that dump a buffer to the log are modelled); the panic handler of lib.rs; and
-- the host program tools/lakers_reference.
pub mod Prelude
pub mod Memory
pub mod Packet
pub mod Platform
pub mod Firmware
pub mod Config
pub mod EspNow
pub mod Wire
pub mod Session
pub mod Exporter
pub mod KeyManager
pub mod Pairing
pub mod Ffi
pub mod Boot
pub mod Trace
pub mod Tests
