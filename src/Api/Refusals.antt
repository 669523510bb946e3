-- ===== src/Api/Refusals.antt =====
-- What the socket refuses (agent/src/api.rs).
use carbide_os.Prelude.{
  ℕ, ◌+◌, ◌≡◌, refl, ap, ◌||◌, ◌≢◌, ◌≤◌, arith, Bool, true, false, Option, none, some, List, [],
  ◌∷◌, map, any, unwrap_or, if◌then◌else◌,
}
use carbide_os.Text.{Text, txt, same}
use carbide_os.Host.{Host, World, IoError, Result, ok, err, Json}
use carbide_os.Effects.{Act, Outcome, done, attempt, get_host, moment, ◌>>=◌}
use carbide_os.Files.{call, create_dir_all}
use carbide_os.Protocol.{Failure, unsupported, unsupported_command}
use carbide_os.Protocol.Reply.{Reply, failed_reply, text_field}
use carbide_os.Lock.{open_at, try_acquire, try_acquire_at}
use carbide_os.Api.{with_lock, exclusive, handle, dispatch, busy, requested_lines}

-- The commands that the agent serves.
abbrev pub served : List Text
served = map txt (
    "hello" ∷ "update-status" ∷ "stage-extension" ∷ "activate-extension" ∷ "stage-base" ∷ "logs"
    ∷ [])

abbrev pub is_served : Text → Bool
is_served command = any (λ k. same command k) served

-- The last branch, by the six tests before it.
last_branch :
    {A : Type 0} (a b c d e f : Bool) (p q r s t u v : A)
    → a || (b || (c || (d || (e || (f || false))))) ≡ false
    → (if a
        then p
        else if b
        then q
        else if c
        then r
        else if d
        then s
        else if e
        then t
        else if f
        then u
        else v)
      ≡ v
last_branch false false false false false false p q r s t u v n = refl
last_branch true b c d e f p q r s t u v n = cc
last_branch false true c d e f p q r s t u v n = cc
last_branch false false true d e f p q r s t u v n = cc
last_branch false false false true e f p q r s t u v n = cc
last_branch false false false false true f p q r s t u v n = cc
last_branch false false false false false true p q r s t u v n = cc

handle_unserved :
    (h : Host) (E : Type 0) (request : Json) (command : Text) (w : World)
    → is_served command ≡ false
    → handle {E = E} request command h w ≡ (done (failed_reply (unsupported_command h command)), w)
unfolding get_host
handle_unserved h E request command w l =
    ap (λ (m : Act E Reply). m h w)
      (last_branch (same command (txt "hello")) (same command (txt "update-status"))
        (same command (txt "stage-extension")) (same command (txt "activate-extension"))
        (same command (txt "stage-base")) (same command (txt "logs")) _ _ _ _ _ _ _ l)

-- A reply that refuses a request as not supported, and names every command that is served.
pub record IsUnsupported (reply : Reply) : Type 0 where
  refused : reply.is_ok ≡ false
  failure : Failure
  told : reply.error ≡ some failure
  coded : failure.code ≡ unsupported
  listed : failure.supported ≡ served

unsupported_command-IsUnsupported :
    (h : Host) (command : Text) → IsUnsupported (failed_reply (unsupported_command h command))
unfolding failed_reply unsupported_command
unsupported_command-IsUnsupported h command = record {
  refused = refl;
  failure = unsupported_command h command;
  told = refl;
  coded = refl;
  listed = refl;
}

-- A request with a command that is none of the six that are served gets a reply that is not ok, with the
-- code `unsupported` and the list of those six, and changes nothing, the moment included.
pub dispatch-IsUnsupported :
    (h : Host) (E : Type 0) (request : Json) (command : Text) (w : World)
    → text_field (txt "command") request ≡ some command
    → is_served command ≡ false
    → (reply : Reply) × (dispatch {E = E} request h w ≡ (done reply, w)) × IsUnsupported reply
unfolding dispatch
dispatch-IsUnsupported h E request command w c l = (
  failed_reply (unsupported_command h command),
  rw c (handle_unserved h E request command w l),
  unsupported_command-IsUnsupported h command,
)

-- A journal request gets between one and 2000 lines, 200 where it names no number, and the number that
-- it names where that is within the bounds.
pub requested_lines-bounded :
    (o : Option ℕ)
    → (1 ≤ requested_lines o)
      × (requested_lines o ≤ 2000)
      × (1 ≤ unwrap_or o 200 → unwrap_or o 200 ≤ 2000 → requested_lines o ≡ unwrap_or o 200)
unfolding requested_lines
requested_lines-bounded o =
    let n = unwrap_or o 200 in (omega arith, omega arith, λ p q. omega (arith, p, q))

-- A reply that is not ok, and files, state and history that are those of `w0`.
abbrev pub Declined : {E : Type 0} → World → Outcome E Reply × World → Type 0
Declined w0 (r, w) =
    ((reply : Reply) × (r ≡ done reply) × (reply.is_ok ≡ false))
    × (w.fs ≡ w0.fs)
    × (w.held ≡ w0.held)
    × (w.history ≡ w0.history)

module _ (h : Host) {E : Type 0} (operation : Act E Reply) (w0 : World) where
  -- Without the lock, the operation is not run.
  without_it :
      (x : Result IoError Bool)
      → x ≢ ok true
      → (t : ℕ) → Declined w0 (with_lock operation x h (record w0 { tick = t }))
  unfolding failed_reply busy
  without_it (ok false) d t = ((busy, refl, refl), refl, refl, refl)
  without_it (ok true) d t = elim (d refl) [ ]
  without_it (err e) d t = ((_, refl, refl), refl, refl, refl)

  -- By what the two calls that open the lock file, and the attempt to lock it, give.
  by_calls :
      (x : Result IoError Bool)
      → x ≢ ok true
      → (first second : Option IoError) → h.fault w0.tick ≡ first
      → h.fault (w0.tick + 1) ≡ second
      → h.try_lock (w0.tick + 1 + 1) ≡ x
      → Declined w0 (exclusive operation h w0)
  unfolding exclusive try_acquire try_acquire_at open_at create_dir_all call moment get_host attempt
      ◌>>=◌
  by_calls x d (some e) second a b c = rw a (without_it (err e) (λ k. cc) (w0.tick + 1))
  by_calls x d none (some e) a b c = rw (a, b) (without_it (err e) (λ k. cc) (w0.tick + 1 + 1))
  by_calls (ok granted) d none none a b c =
      rw (a, b, c) (without_it (ok granted) d (w0.tick + 1 + 1 + 1))
  by_calls (err e) d none none a b c = rw (a, b, c) (without_it (err e) d (w0.tick + 1 + 1 + 1))

-- Where the lock is never granted, as while another process holds it, an exclusive request is refused
-- whatever the operation is: there is a reply, it is not ok, and neither files nor state nor history
-- change.
pub exclusive-refused :
    (h : Host) {E : Type 0} (operation : Act E Reply) (w : World)
    → ((t : ℕ) → h.try_lock t ≢ ok true)
    → Declined w (exclusive operation h w)
exclusive-refused h operation w elsewhere =
    by_calls h operation w (h.try_lock (w.tick + 1 + 1)) (elsewhere _) (h.fault w.tick)
      (h.fault (w.tick + 1)) refl refl refl
