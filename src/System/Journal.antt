-- ===== src/System/Journal.antt =====
-- Reading the journal (agent/src/system.rs).
use carbide_os.Prelude.{ℕ, Option, none, some, List, [], ◌∷◌, ◌++◌, if◌then◌else◌}
use carbide_os.Text.{Text, txt, strip_prefix, starts_with, trim, lines}
use carbide_os.Host.{Host, IoError, other_kind}
use carbide_os.Effects.{Act, pure, raise, get_host, ◌>>=◌}
use carbide_os.System.Command.{Finished, capture}

abbrev optional_flag : Text → Option Text → List Text
optional_flag flag none = []
optional_flag flag (some value) = (flag ++ value) ∷ []

-- A cursor already fixes the start of what is read.
unfoldable pub journal_arguments : Host → Option Text → ℕ → Option Text → Option Text → List Text
journal_arguments h unit lines cursor priority =
    txt "--no-pager"
    ∷ txt "--output=short-iso"
    ∷ txt "--show-cursor"
    ∷ (optional_flag (txt "--after-cursor=") cursor
        ++ ((txt "--lines=" ++ h.decimal lines)
            ∷ (optional_flag (txt "--unit=") unit ++ optional_flag (txt "--priority=") priority)))

-- The loop over the lines: what is collected, and the last cursor seen.
unfoldable pub read_journal : List Text → Option Text → List Text → List Text × Option Text
unfolding strip_prefix starts_with trim
read_journal collected next [] = (collected, next)
read_journal collected next (line ∷ rest) = elim (strip_prefix (trim line) (txt "-- cursor:")) [
  | some value ↦ read_journal collected (some (trim value)) rest
  | none ↦
      read_journal
        (if starts_with line (txt "-- No entries") then collected else collected ++ (line ∷ []))
        next rest
]

abbrev pub journal_answer : Finished → Act IoError (List Text × Option Text)
journal_answer finished =
    if finished.ok
    then pure (read_journal [] none (lines finished.stdout))
    else raise (record { kind = other_kind; message = trim finished.stderr })

unfoldable pub journal :
    Option Text → ℕ → Option Text → Option Text → Act IoError (List Text × Option Text)
journal unit lines cursor priority = do
  arguments ← get_host (λ h. journal_arguments h unit lines cursor priority)
  finished ← capture (txt "/usr/bin/journalctl") arguments
  journal_answer finished
