-- ===== src/Service/Worker/Launch.antt =====
-- launcher.py: what a launch of the builder comes back with.
use headless_blender_charact.Prelude.{ℕ}

pub data LaunchTermination : Type 0 where
  completed canceled timed_out lease_lost : LaunchTermination

-- The parts of a `LaunchResult` that the supervisor reads; its directories stand in `paths`, which
-- only code outside reads. A return code that the launcher reports is not negative.
pub record LaunchResult (Paths : Type 0) : Type 0 where
  pub paths : Paths
  pub exit_code : ℕ
  pub termination : LaunchTermination
