-- ===== src/Host.antt =====
-- What surrounds the agent: the file system, the clock, other programs and third-party parsers.
-- Everything here that the repository does not implement is a field of `Host`, and every answer may
-- depend on the moment, so that a statement over all hosts covers every failure at every point.
use carbide_os.Prelude.{ℕ, Bool, Option, List}
use carbide_os.Text.{Text}
use carbide_os.State.{State}

pub data ErrorKind : Type 0 where
  not_found invalid_data other_kind : ErrorKind

-- std::io::Error
pub record IoError : Type 0 where
  pub kind : ErrorKind
  pub message : Text

pub data Result (E A : Type 0) : Type 0 where
  ok : A → Result E A
  err : E → Result E A

-- A path as its parent directory and its last component.
pub record FilePath : Type 0 where
  pub dir : Text
  pub name : Text

-- A file: its content, its mode, and whether the content has been flushed by `sync_all`.
pub record File : Type 0 where
  pub bytes : List ℕ
  pub mode : ℕ
  pub synced : Bool

abbrev pub Fs : Type 0
Fs = List (FilePath × File)

-- std::process::Output; a process ended by a signal has no code.
pub record Output : Type 0 where
  pub code : Option ℕ
  pub stdout : Text
  pub stderr : Text

-- std::process::ExitStatus, with the text that `{}` prints
pub record ExitStatus : Type 0 where
  pub success : Bool
  pub shown : Text

-- serde_json::Value
mutual
  pub data Json : Type 0 where
    null : Json
    bool : Bool → Json
    num : ℕ → Json
    str : Text → Json
    arr : Items → Json
    obj : Members → Json

  pub data Items : Type 0 where
    nil : Items
    cons : Json → Items → Items

  pub data Members : Type 0 where
    end : Members
    member : Text → Json → Members → Members

-- The first argument of the answers is the moment, a count of the calls made so far.
pub record Host : Type 0 where
  -- the text of /etc/os-release, which belongs to the sealed image
  pub os_release : Option Text
  -- whether the call at that moment fails, and how
  pub fault : ℕ → Option IoError
  -- a file outside of the directories of the agent, such as one of the merged /usr tree
  pub usr : ℕ → FilePath → Result IoError Text
  -- another program, by its name and its arguments: what it answers, and what it does to the files
  pub exec : ℕ → Text → List Text → Fs → Result IoError Output
  pub effect : ℕ → Text → List Text → Fs → Fs
  -- whether that program never returns, which the agent would wait for: it sets no limit
  pub blocks : ℕ → Text → List Text → Bool
  -- whether the lock on the lock file is granted without waiting
  pub try_lock : ℕ → Result IoError Bool
  -- the state of a spawned child: running, or ended
  pub poll : ℕ → Result IoError (Option ExitStatus)
  -- the monotonic clock, in nanoseconds
  pub now : ℕ → ℕ
  -- what a read sees of a file, which another process may have written to since
  pub reads : ℕ → FilePath → List ℕ → List ℕ
  -- how many bytes a failing write has written
  pub written : ℕ → ℕ
  -- how many rounds of a waiting loop are run before a run is given up
  pub fuel : ℕ
  -- `{:?}` of a text, and `{}` of a number
  pub debug : Text → Text
  pub decimal : ℕ → Text
  -- serde_json on the agent's state, and on other documents, with what it says of one it refuses
  pub encode : State → Result Text Text
  pub decode : Text → Result Text State
  pub parse_json : Text → Option Json
  pub json_error : Text → Text

-- What a run changes. `held` is the `State` value that the operation in progress owns; `history`
-- collects the files as they stood before each change, latest first.
pub record World : Type 0 where
  pub fs : Fs
  pub held : State
  pub tick : ℕ
  pub history : List Fs
