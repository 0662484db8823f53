-- ===== src/Vocab.antt =====
-- vocab/: the vocabulary dictionary, the snippet expander and the learned corrections.
pub mod Match
pub mod Dictionary
pub mod Snippets
pub mod Adaptive
