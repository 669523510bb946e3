-- ===== src/Tests/Requests.antt =====
-- Requests and waits at concrete inputs.
use carbide_os.Prelude.{ℕ, ◌≤◌, ◌≡◌, ◌≢◌, refl, true, false, some, unwrap_or}
use carbide_os.Text.{txt, same, trim}
use carbide_os.Host.{Json, str, obj, end, member}
use carbide_os.System.Release.{find_member}
use carbide_os.Api.{dispatch}
use carbide_os.Api.Answers.{Answers}
use carbide_os.Effects.{done}
use carbide_os.Protocol.Reply.{Reply, text_field}
use carbide_os.Api.{exclusive, hello, requested_lines}
use carbide_os.Api.Refusals.{
  Declined, IsUnsupported, dispatch-IsUnsupported, exclusive-refused, requested_lines-bounded,
}
use carbide_os.Host.{Host, ok}
use carbide_os.Tests.Hosts.{calm_host, gpu, staged_world}

-- A request to activate the staged candidate.
abbrev request : Json
request = obj (
    member (txt "command") (str (txt "activate-extension"))
      (member (txt "name") (str gpu) (member (txt "version") (str (txt "2")) end)))

-- A request that no version of the agent knows.
abbrev unknown_request : Json
unknown_request = obj (member (txt "command") (str (txt "reboot")) end)

reboot_named : text_field (txt "command") unknown_request ≡ some (txt "reboot")
unfolding text_field txt find_member same trim
reboot_named = refl

dispatch-IsUnsupported_example :
    (reply : Reply) × (dispatch {E = ⊥} unknown_request calm_host staged_world
      ≡ (done reply, staged_world))
    × IsUnsupported reply
unfolding txt same
dispatch-IsUnsupported_example =
    dispatch-IsUnsupported calm_host ⊥ unknown_request (txt "reboot") staged_world reboot_named refl

-- A host on which another process holds the lock.
abbrev locked_host : Host
locked_host = record calm_host { try_lock = λ t. ok false }

not_granted : (t : ℕ) → locked_host.try_lock t ≢ ok true
not_granted t e = cc

exclusive-refused_example : Declined staged_world (exclusive {E = ⊥} hello locked_host staged_world)
exclusive-refused_example = exclusive-refused locked_host hello staged_world not_granted

requested_lines-bounded_example :
    (1 ≤ requested_lines (some 5000))
    × (requested_lines (some 5000) ≤ 2000)
    × (1 ≤ unwrap_or (some 5000) 200
        → unwrap_or (some 5000) 200 ≤ 2000
        → requested_lines (some 5000) ≡ unwrap_or (some 5000) 200)
requested_lines-bounded_example = requested_lines-bounded (some 5000)
