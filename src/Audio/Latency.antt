-- ===== src/Audio/Latency.antt =====
-- relay/src/audio/latency_profile.rs: the two latency profiles and the depths of their queues.
use connectors.Base.{ℕ}

pub data LatencyProfile : Type 0 where
  low standard : LatencyProfile

unfoldable pub capture_channel_depth : LatencyProfile → ℕ
capture_channel_depth low = 2
capture_channel_depth standard = 16

unfoldable pub encoded_channel_depth : LatencyProfile → ℕ
encoded_channel_depth low = 2
encoded_channel_depth standard = 8
