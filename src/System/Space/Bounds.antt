-- ===== src/System/Space/Bounds.antt =====
-- The room that a transaction asks for (agent/src/system.rs).
use carbide_os.Prelude.{ℕ, ◌+◌, ◌≤◌, ◌≡◌, min, arith}
use carbide_os.System.Space.{
  u64_max, saturating_add, saturating_mul, space_margin, activation_space, staging_space,
}

-- The room asked for an activation is the sum of the candidate, the missing rollback copy and the
-- margin, or the largest number if that sum does not fit 64 bits, so that it never wraps around to a
-- small one; the room asked for staging is never less.
pub activation_space-exact :
    (candidate missing : ℕ)
    → (activation_space candidate missing ≡ min (candidate + missing + space_margin) u64_max)
      × (activation_space candidate missing ≤ staging_space candidate missing)
unfolding activation_space staging_space saturating_add saturating_mul
activation_space-exact candidate missing = (omega arith, omega arith)
