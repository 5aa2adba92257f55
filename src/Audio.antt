-- ===== src/Audio.antt =====
-- plugin/node/audio-pipeline.ts. A buffer is the list of its bytes, each below 256. `Frames` cuts
-- audio into frames, `Resample` changes its sample rate.
pub mod Frames
pub mod Resample
use openclaw_rtc_plugin.Common.{ℕ, List}

abbrev pub Buffer : Type 0
Buffer = List ℕ

abbrev pub volc_input_rate : ℕ
volc_input_rate = 16000

abbrev pub volc_output_rate : ℕ
volc_output_rate = 24000

abbrev pub webrtc_rate : ℕ
webrtc_rate = 48000

abbrev pub volc_frame_bytes : ℕ
volc_frame_bytes = 640

abbrev pub webrtc_frame_bytes : ℕ
webrtc_frame_bytes = 1920
