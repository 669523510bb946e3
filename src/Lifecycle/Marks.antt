-- ===== src/Lifecycle/Marks.antt =====
-- What a crash may leave on disk: every mergeable image as it was, or a state file that names the
-- operation under way. `State` here is the agent's state file (agent/src/state.rs).
use carbide_os.Prelude.{
  ℕ, ◌≡◌, refl, sym, ◌≢◌, ◌⊎◌, arith, true, some, List, [], ◌∷◌, ◌++◌, unwrap_or,
}
use carbide_os.Text.{Text, txt}
use carbide_os.Text.Laws.{same_iff}
use carbide_os.State.{State, ExtensionState, fresh, get, update_entry}
use carbide_os.State.Map.{get-update_entry_self}
use carbide_os.Host.{Host, Fs, File, FilePath, ok}
use carbide_os.Files.{find, put}
use carbide_os.Files.Table.{find-put, find-put_other, find-erase_other, same_path_iff}
use carbide_os.Files.Keeps.{Ignores}
use carbide_os.StateFile.{state_dir, state_path}
use carbide_os.StateFile.Atomic.{IsEncoding}
use carbide_os.System.Slots.{extensions_dir}
use carbide_os.System.Slots.Mergeable.{mergeable}
use carbide_os.System.Command.{systemctl, sysext}

-- What serde_json is relied on for: a printed state with a newline reads back.
abbrev pub IsFaithful : Host → Type 0
IsFaithful h =
    (s : State) (text : Text) → h.encode s ≡ ok text → h.decode (text ++ (10 ∷ [])) ≡ ok s

-- Controlling units and merging extensions leave the agent's own directories alone.
pub record IsInert (h : Host) : Type 0 where
  pub units :
      (t : ℕ) (args : List Text) (fs : Fs) (p : FilePath)
      → (p.dir ≡ extensions_dir) ⊎ (p.dir ≡ state_dir)
      → find (h.effect t systemctl args fs) p ≡ find fs p
  pub merges :
      (t : ℕ) (args : List Text) (fs : Fs) (p : FilePath)
      → (p.dir ≡ extensions_dir) ⊎ (p.dir ≡ state_dir)
      → find (h.effect t sysext args fs) p ≡ find fs p

-- The file at `p` is what it was in `fs0`, or is missing as it was.
abbrev pub Agrees : Fs → FilePath → Fs → Type 0
Agrees fs0 p fs = find fs p ≡ find fs0 p

-- Every image that gets merged is as it was in `fs0`.
abbrev pub ImagesKept : Fs → Fs → Type 0
ImagesKept fs0 fs = (n : Text) → Agrees fs0 (mergeable n) fs

-- The entry of `name`, or the default one, meets `T`.
abbrev pub On : (ExtensionState → Type 0) → Text → State → Type 0
On T name s = T (unwrap_or (get s name) fresh)

-- The state file is whole and flushed, and its entry of `name` meets `T`.
pub record Marked (h : Host) (T : ExtensionState → Type 0) (name : Text) (fs : Fs) : Type 0 where
  pub file : File
  pub state : State
  pub found : find fs state_path ≡ some file
  pub read : h.decode file.bytes ≡ ok state
  pub flushed : file.synced ≡ true
  pub meets : On T name state

pub On-update_entry :
    (T : ExtensionState → Type 0) (name : Text) (f : ExtensionState → ExtensionState)
    → ((e : ExtensionState) → T e → T (f e))
    → (s : State) → On T name s
    → On T name (update_entry name f s)
On-update_entry T name f k s t =
    rw (get-update_entry_self name f s) (k (unwrap_or (get s name) fresh) t)

pub dirs_apart : extensions_dir ≢ state_dir
unfolding txt
dirs_apart e = ground (arith, (same_iff extensions_dir state_dir).1 e)

pub Agrees-Ignores : (fs0 : Fs) (p q : FilePath) → q ≢ p → Ignores (Agrees fs0 p) q
Agrees-Ignores fs0 p q d = record {
  at_put = λ fs f a. rw (find-put_other q p fs d f) a;
  at_erase = λ fs a. rw (find-erase_other q p fs d) a;
}

module _ (fs0 : Fs) where
  pub ImagesKept-Ignores :
      (q : FilePath) → ((n : Text) → mergeable n ≢ q) → Ignores (ImagesKept fs0) q
  ImagesKept-Ignores q d = record {
    at_put = λ fs f a n. (Agrees-Ignores fs0 (mergeable n) q (λ e. d n (sym e))).at_put fs f (a n);
    at_erase = λ fs a n. (Agrees-Ignores fs0 (mergeable n) q (λ e. d n (sym e))).at_erase fs (a n);
  }

  pub ImagesKept-outside : (q : FilePath) → q.dir ≡ state_dir → Ignores (ImagesKept fs0) q
  ImagesKept-outside q d = ImagesKept-Ignores q (λ n e. dirs_apart (cc e))

module _ {h : Host} {T : ExtensionState → Type 0} {name : Text} where
  pub Marked-moved :
      (fs fs' : Fs)
      → find fs' state_path ≡ find fs state_path
      → Marked h T name fs
      → Marked h T name fs'
  Marked-moved fs fs' e m = record {
    file = m.file;
    state = m.state;
    found = cc (e, m.found);
    read = m.read;
    flushed = m.flushed;
    meets = m.meets;
  }

  pub Marked-Ignores : (q : FilePath) → q ≢ state_path → Ignores (Marked h T name) q
  Marked-Ignores q d = record {
    at_put = λ fs f. Marked-moved fs _ (find-put_other q state_path fs d f);
    at_erase = λ fs. Marked-moved fs _ (find-erase_other q state_path fs d);
  }

  pub Marked-stored :
      IsFaithful h
      → (s : State) (fs : Fs) (f : File) → On T name s
      → IsEncoding h s f
      → Marked h T name (put state_path f fs)
  Marked-stored faithful s fs f t e = record {
    file = f;
    state = s;
    found = rw (find-put state_path state_path f fs, (same_path_iff state_path state_path).1 refl);
    read = rw e.whole (faithful s e.text e.encoded);
    flushed = e.flushed;
    meets = t;
  }
