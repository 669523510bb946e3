-- ===== src/Protocol/Tail.antt =====
-- `Failure::stderr` keeps a bounded tail (agent/src/protocol.rs).
use carbide_os.Prelude.{
  ℕ, ◌+◌, ◌-◌, ◌≤◌, ◌≡◌, true, Option, none, some, [], ◌∷◌, ◌++◌, arith, ltb, Bool-cases, inl, inr,
}
use carbide_os.Text.{Text, txt, is_empty, trim}
use carbide_os.Protocol.{Failure, stderr_limit, len_utf8, byte_len, from_byte, with_stderr}

byte_len-from_byte : (s : Text) (start : ℕ) → byte_len (from_byte s start) ≤ byte_len s - start
unfolding byte_len from_byte
byte_len-from_byte [] start = ground arith
byte_len-from_byte (c ∷ s) start = ground (arith, byte_len-from_byte s (start - len_utf8 c))

byte_len-dots : (s : Text) → byte_len (txt "..." ++ s) ≡ byte_len s + 3
unfolding byte_len len_utf8 txt
byte_len-dots s = omega arith

abbrev pub kept_length : Option Text → ℕ
kept_length none = 0
kept_length (some s) = byte_len s

long_text : (n : ℕ) → ltb stderr_limit n ≡ true → stderr_limit ≤ n
long_text n h = ground arith

-- However long an error text is, what a reply carries of it takes at most 4096 bytes and the three
-- of the dots, if the failure carried none before.
pub with_stderr-bounded :
    (stderr : Text) (f : Failure)
    → f.stderr ≡ none
    → kept_length (with_stderr stderr f).stderr ≤ stderr_limit + 3
unfolding with_stderr
with_stderr-bounded stderr f e = elim (Bool-cases (is_empty (trim stderr))) [
  | inl y ↦ rw y (rw e (omega arith))
  | inr n ↦ rw n (elim (Bool-cases (ltb stderr_limit (byte_len (trim stderr)))) [
    | inl y ↦ rw y (
        omega (
          arith,
          byte_len-dots (from_byte (trim stderr) (byte_len (trim stderr) - stderr_limit)),
          byte_len-from_byte (trim stderr) (byte_len (trim stderr) - stderr_limit),
          long_text _ y,
        ))
    | inr m ↦ rw m (ground arith)
  ])
]
