-- ===== src/Vision.antt =====
-- vision/: the splicing of screenshots into a dictation.
pub mod Anchors
