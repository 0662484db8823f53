-- ===== src/Orchestrator/Steps.antt =====
-- The steps of the pipeline: corrections and commands, transcription, cleanup, insertion, vision.
pub mod Commands
pub mod Asr
pub mod Cleanup
pub mod Insertion
pub mod Vision
