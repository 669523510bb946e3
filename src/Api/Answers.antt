-- ===== src/Api/Answers.antt =====
-- Every request is answered (agent/src/api.rs, `dispatch`).
use carbide_os.Prelude.{◌≡◌, ◌⊎◌}
use carbide_os.Text.{Text}
use carbide_os.Host.{Host}
use carbide_os.Effects.{Outcome, done, halted, panicked, blocked}
use carbide_os.Effects.Total.{Total, total_rules}
use carbide_os.Files.Total.{Total-call, Total-create_dir_all}
use carbide_os.Protocol.Reply.{Reply}
use carbide_os.Lock.{open_at}

module _ {h : Host} where
  pub Total-open_at : (dir : Text) → Total h (open_at dir)
  unfolding open_at
  Total-open_at dir = search (total_rules, Total-create_dir_all, Total-call)

-- A reply, a panic of the thread that serves the request, or a program that was started on the way and
-- never returns.
abbrev pub Answers : Outcome ⊥ Reply → Type 0
Answers r = ((reply : Reply) × (r ≡ done reply)) ⊎ ((r ≡ halted panicked) ⊎ (r ≡ halted blocked))
