-- ===== src/Tests.antt =====
-- The theorems at concrete inputs.
mod Pipeline
mod Vocabulary
mod Recorder
mod Storage
mod Streaming
mod Keyboard
mod Configured
mod Reconfigured
mod Whispered
mod Compiled
