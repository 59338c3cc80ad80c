-- ===== src/Lib.antt =====
-- Verification of the PocketStation Relay connector (relay/src): publication of audio buses to a Relay.
--
-- Parts of the program, and the modules that model them:
--   relay/src/audio/latency_profile.rs   Audio/Latency
--   relay/src/audio/pcm_packetizer.rs    Audio/Packetizer: the 20 ms packet assembler
--   relay/src/audio/opus_worker.rs       Audio/Stream (the loop over one frame) and Audio/OpusWorker
--                                        (World: what it uses; Worker: one packet; Session: the thread)
--   relay/src/configuration.rs           Configuration: Types, IceServers, Validation, Builders, Wire
--                                        (Origins and Names say what is accepted);
--                                        also validate_bus of frame_publisher.rs, checked_proxy of
--                                        rtc/proxy.rs
--   relay/src/publisher_control.rs       Control: Handle, with Renewal and Reachable on its calls
--   relay/src/rtc/gateway.rs             Gateway: Failures, Packet, Ingress (state and monad), Sending,
--                                        Recovery, Publishing
--   relay/src/runtime.rs                 Runtime: Errors, Statistics, Receipts (the registry and its
--                                        ledger), Grouping, Factory (preparation), Worker, Feeder (the
--                                        thread of a bus), Delivery (the outcomes of a group)
--   relay/src/source.rs                  Source: Configuration, Reservations, Driver; also close of
--                                        rtc/subscriber.rs
--   relay/src/rtc/publisher.rs           Publisher: Backlog (try_recv_frame), Outputs (drain_all_outputs
--                                        of rtc/types.rs)
-- Base holds the shared names: tests, lists over native numbers, machine words, results, text.
--
-- A configuration is validated and travels through Core to the node that publishes it. There each bus
-- has an encoder thread, which cuts the captured samples into packets and sends encoded frames over a
-- bounded channel to the gateway; the gateway packs and sends them, and reattaches all streams together
-- when the network fails or the publisher control carries a renewed credential.
--
-- The runtime prepares a group of routes as a whole: it reserves a receipt for each, prepares the
-- transport, and gives the receipts back if that fails. A worker runs the transport and writes each
-- route's result into its receipt, once. In the other direction a source decodes the frames of a remote
-- bus onto the local time line.
--
-- Shared objects (the receipts' states, the observations) stand in a heap, and an `Arc` is a place in it.
-- State is passed explicitly: a function of the source that mutates takes the state and returns it. A
-- `Result` is a value of the type Result; the gateway has a monad with errors, panics and fuel. What a
-- thread asks of its surroundings (clock, socket, channel, other threads) is a World, a record of
-- functions of a moment, and each question advances the moment, so that anything may happen between two
-- questions. Third-party code is a record of operations (Api, World, Float32), its documented behaviour
-- a record of laws where a theorem needs it.
--
-- Bounds: a registry's capacity is less than the largest usize, since HashMap::with_capacity takes it.
-- Counters wrap or saturate at 64 bits as in the source, and usize is 64 bits wide. Durations and
-- instants are nanoseconds. Text is its list of code points. The message limit of an error is a
-- parameter, taken as four bytes or more, and a message given to relay_error is taken as not empty.
-- The loop over one frame has fuel, and one round for each sample is enough. The publisher's two loops
-- have fuel, and enough of it is stated with them. The gateway's waiting loops and its publishing loop
-- have fuel, since they run as long as the network and the callers let them; what is proved of them
-- holds at any fuel, at the point where the fuel ends as at any other end.
--
-- Not modelled: of runtime.rs NativeRelayPublishTransport::prepare and the start of the threads; of
-- source.rs the polling loops of prepare and next and the manifest; the connection of
-- rtc/subscriber.rs but for its close; of rtc/publisher.rs classify_signaling_read and
-- run_publish_loop; rtc/handshake.rs, the rest of rtc/proxy.rs and frame_publisher.rs; connector.rs
-- (static data), rtc/signaling.rs and audio/clock.rs (I/O), the module roots, Debug instances and
-- tests.
pub mod Base
pub mod Audio
pub mod Configuration
pub mod Control
pub mod Gateway
pub mod Publisher
pub mod Runtime
pub mod Source
