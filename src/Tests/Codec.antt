-- ===== src/Tests/Codec.antt =====
-- A printed form of the agent's state that reads back: numbers, with the length before each list.
use carbide_os.Prelude.{
  ℕ, zero, suc, ◌≡◌, refl, ap, ◌∙◌, Bool, true, false, Option, none, some, List, [], ◌∷◌, ◌++◌,
  length, take, drop, ◌==◌, if◌then◌else◌,
}
use carbide_os.Text.{Text}
use carbide_os.State.{
  State, ExtensionState, Phase, idle, staged, activating, starting, soaking, active, reverting,
  recovered, removing, unrecoverable, fresh,
}

abbrev put_text : Text → Text → Text
put_text t l = length t ∷ (t ++ l)

abbrev get_text : Text → Text × Text
get_text [] = ([], [])
get_text (n ∷ l) = (take n l, drop n l)

abbrev put_option : Option Text → Text → Text
put_option none l = 0 ∷ l
put_option (some t) l = 1 ∷ put_text t l

abbrev get_option : Text → Option Text × Text
get_option (suc n ∷ l) = let (t, rest) = get_text l in (some t, rest)
get_option (zero ∷ l) = (none, l)
get_option [] = (none, [])

abbrev put_texts : List Text → Text → Text
put_texts [] l = l
put_texts (t ∷ ts) l = put_text t (put_texts ts l)

abbrev get_texts : ℕ → Text → List Text × Text
get_texts zero l = ([], l)
get_texts (suc n) l = let (t, l1) = get_text l in let (ts, l2) = get_texts n l1 in (t ∷ ts, l2)

abbrev put_phase : Phase → ℕ
put_phase idle = 0
put_phase staged = 1
put_phase activating = 2
put_phase starting = 3
put_phase soaking = 4
put_phase active = 5
put_phase reverting = 6
put_phase recovered = 7
put_phase removing = 8
put_phase unrecoverable = 9

abbrev get_phase : ℕ → Phase
get_phase n =
    if n == 0
    then idle
    else if n == 1
    then staged
    else if n == 2
    then activating
    else if n == 3
    then starting
    else if n == 4
    then soaking
    else if n == 5
    then active
    else if n == 6
    then reverting
    else if n == 7
    then recovered
    else if n == 8
    then removing
    else unrecoverable

abbrev put_flag : Bool → ℕ
put_flag true = 1
put_flag false = 0

abbrev get_flag : ℕ → Bool
get_flag zero = false
get_flag (suc n) = true

abbrev put_entry : ExtensionState → Text → Text
put_entry e l =
    put_flag e.required
    ∷ put_phase e.phase
    ∷ put_option e.active_version (
        put_option e.known_good_version (
          put_option e.candidate_version (
            put_option e.request_id (
              put_option e.last_health (
                put_option e.last_failure (
                  put_option e.terminal_os_version
                    (length e.completed_requests ∷ put_texts e.completed_requests l)))))))

abbrev get_counted : Text → List Text × Text
get_counted [] = ([], [])
get_counted (n ∷ l) = get_texts n l

abbrev get_entry : Text → ExtensionState × Text
get_entry (flag ∷ phase ∷ l) =
    let (a, l1) = get_option l in
    let (k, l2) = get_option l1 in
    let (c, l3) = get_option l2 in
    let (r, l4) = get_option l3 in
    let (h, l5) = get_option l4 in
    let (f, l6) = get_option l5 in
    let (t, l7) = get_option l6 in
    let (ids, l8) = get_counted l7 in
    (
      record {
        required = get_flag flag;
        active_version = a;
        known_good_version = k;
        candidate_version = c;
        phase = get_phase phase;
        request_id = r;
        last_health = h;
        last_failure = f;
        terminal_os_version = t;
        completed_requests = ids;
      },
      l8,
    )
get_entry l = (fresh, [])

abbrev put_entries : State → Text → Text
put_entries [] l = l
put_entries ((name, e) ∷ s) l = put_text name (put_entry e (put_entries s l))

abbrev get_entries : ℕ → Text → State
get_entries zero l = []
get_entries (suc n) l =
    let (name, l1) = get_text l in
    let (e, l2) = get_entry l1 in let s = get_entries n l2 in (name, e) ∷ s

take-append : (t l : Text) → take (length t) (t ++ l) ≡ t
take-append [] l = refl
take-append (a ∷ t) l = ap (λ (x : Text). a ∷ x) (take-append t l)

drop-append : (t l : Text) → drop (length t) (t ++ l) ≡ l
drop-append [] l = refl
drop-append (a ∷ t) l = drop-append t l

get_text-put_text : (t l : Text) → get_text (put_text t l) ≡ (t, l)
get_text-put_text t l = rw (take-append t l, drop-append t l) refl

get_option-put_option : (o : Option Text) (l : Text) → get_option (put_option o l) ≡ (o, l)
get_option-put_option none l = refl
get_option-put_option (some t) l = rw (take-append t l, drop-append t l) refl

get_texts-put_texts : (ts : List Text) (l : Text) → get_texts (length ts) (put_texts ts l) ≡ (ts, l)
get_texts-put_texts [] l = refl
get_texts-put_texts (t ∷ ts) l =
    rw (take-append t (put_texts ts l), drop-append t (put_texts ts l), get_texts-put_texts ts l)
      refl

get_phase-put_phase : (p : Phase) → get_phase (put_phase p) ≡ p
get_phase-put_phase = elim [
  | idle ↦ refl
  | staged ↦ refl
  | activating ↦ refl
  | starting ↦ refl
  | soaking ↦ refl
  | active ↦ refl
  | reverting ↦ refl
  | recovered ↦ refl
  | removing ↦ refl
  | unrecoverable ↦ refl
]

get_flag-put_flag : (b : Bool) → get_flag (put_flag b) ≡ b
get_flag-put_flag true = refl
get_flag-put_flag false = refl

get_entry-put_entry : (e : ExtensionState) (l : Text) → get_entry (put_entry e l) ≡ (e, l)
get_entry-put_entry e l =
    simp (get_option-put_option, get_phase-put_phase, get_flag-put_flag, get_texts-put_texts)

get_entries-put_entries : (s : State) (l : Text) → get_entries (length s) (put_entries s l) ≡ s
get_entries-put_entries [] l = refl
get_entries-put_entries ((name, e) ∷ s) l = simp (
  take-append,
  drop-append,
  get_option-put_option,
  get_phase-put_phase,
  get_flag-put_flag,
  get_texts-put_texts,
  get_entries-put_entries s l,
)

-- The printed state, and its reading with the newline that `store` writes at the end.
abbrev pub print : State → Text
print s = length s ∷ put_entries s []

abbrev without_newline : Text → Text
without_newline [] = []
without_newline (a ∷ []) = []
without_newline (a ∷ b ∷ l) = a ∷ without_newline (b ∷ l)

without_newline-append : (l : Text) → without_newline (l ++ (10 ∷ [])) ≡ l
without_newline-append [] = refl
without_newline-append (a ∷ []) = refl
without_newline-append (a ∷ b ∷ l) = ap (λ (x : Text). a ∷ x) (without_newline-append (b ∷ l))

abbrev read_all : Text → State
read_all [] = []
read_all (n ∷ l) = get_entries n l

abbrev pub read : Text → State
read l = read_all (without_newline l)

pub read-print : (s : State) → read (print s ++ (10 ∷ [])) ≡ s
read-print s = ap read_all (without_newline-append (print s)) ∙ get_entries-put_entries s []
