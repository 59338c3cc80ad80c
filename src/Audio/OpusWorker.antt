-- ===== src/Audio/OpusWorker.antt =====
-- relay/src/audio/opus_worker.rs: the encoder worker, its frames and counters.
-- What the worker asks of its surroundings (the codec, the clocks, whether an output generation is
-- still active, what the bounded channel to the publisher answers) is a `World`: its answers at
-- successive moments, one moment to each question.
pub mod World
pub mod Worker
pub mod Session
pub mod Accounting
pub mod Timeline
