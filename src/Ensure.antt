-- ===== src/Ensure.antt =====
-- `ensure` of api/python/provisioner/utils.py: call a check until it passes, with a pause between.
mod Rounds
pub mod Laws
pub mod Calls
pub use Rounds.{Verdict, passed, raised, again, Settings}
unfoldable pub use Rounds.{judge, give_up, is_expected, ensure_loop, finished, ensure}
