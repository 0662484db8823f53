-- ===== src/Setup.antt =====
-- setup/: the policy of what a change of the configuration asks for.
pub mod RestartPolicy
