-- ===== src/Audio.antt =====
-- The audio half of the relay connector (relay/src/audio).
pub mod Latency
pub mod Packetizer
pub mod Stream
pub mod OpusWorker
pub mod Tests
