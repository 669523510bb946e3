-- ===== src/System/Space.antt =====
-- Free space required by a transaction (agent/src/system.rs), in saturating `u64` arithmetic.
pub mod Bounds
use carbide_os.Prelude.{ℕ, ◌+◌, ◌-◌, ◌*◌, ◌^◌, min}

abbrev pub u64_max : ℕ
u64_max = 2 ^ 64 - 1

unfoldable pub saturating_add : ℕ → ℕ → ℕ
saturating_add a b = min (a + b) u64_max

unfoldable pub saturating_mul : ℕ → ℕ → ℕ
saturating_mul a b = min (a * b) u64_max

abbrev pub space_margin : ℕ
space_margin = 16 * 1024 * 1024

unfoldable pub activation_space : ℕ → ℕ → ℕ
unfolding saturating_add
activation_space candidate_size missing_rollback_size =
    saturating_add (saturating_add candidate_size missing_rollback_size) space_margin

unfoldable pub staging_space : ℕ → ℕ → ℕ
unfolding saturating_add saturating_mul
staging_space image_size missing_rollback_size =
    saturating_add (saturating_add (saturating_mul image_size 2) missing_rollback_size) space_margin
