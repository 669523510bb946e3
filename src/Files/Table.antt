-- ===== src/Files/Table.antt =====
-- The laws of the table of files.
use carbide_os.Prelude.{◌≡◌, refl, ◌↔◌, ◌≢◌, false, true, none, some, [], ◌∷◌, arith, if◌then◌else◌}
use carbide_os.Text.Laws.{same_iff}
use carbide_os.Host.{Fs, File, FilePath}
use carbide_os.Files.{same_path, find, put, erase}

pub same_path_iff : (p q : FilePath) → (same_path p q ≡ true) ↔ (p ≡ q)
unfolding same_path
same_path_iff p q = ground (arith, same_iff p.dir q.dir, same_iff p.name q.name)

pub find-put :
    (p q : FilePath) (f : File) (fs : Fs)
    → find (put p f fs) q ≡ (if same_path p q then some f else find fs q)
unfolding find put
find-put p q f [] = refl
find-put p q f ((r, g) ∷ fs) =
    ground (arith, find-put p q f fs, same_path_iff p q, same_path_iff r p, same_path_iff r q)

pub find-erase :
    (p q : FilePath) (fs : Fs) → find (erase p fs) q ≡ (if same_path p q then none else find fs q)
unfolding find erase
find-erase p q [] = ground arith
find-erase p q ((r, g) ∷ fs) =
    ground (arith, find-erase p q fs, same_path_iff p q, same_path_iff r p, same_path_iff r q)

module _ (p q : FilePath) (fs : Fs) (d : p ≢ q) where
  same_path_no : same_path p q ≡ false
  same_path_no = ground (arith, same_path_iff p q, d)

  pub find-put_other : (f : File) → find (put p f fs) q ≡ find fs q
  find-put_other f = rw (find-put p q f fs, same_path_no)

  pub find-erase_other : find (erase p fs) q ≡ find fs q
  find-erase_other = rw (find-erase p q fs, same_path_no)
