-- ===== src/System/Slots/Mergeable.antt =====
-- No name that the agent gives to a rollback copy, a candidate or a half-made file is the name of an
-- image that gets merged, which ends in `.raw` (agent/src/system.rs).
use carbide_os.Prelude.{
  Option, none, some, is_some, true, ◌≡◌, refl, sym, ap, ◌∙◌, ◌≢◌, ◌++◌, append_assoc,
}
use carbide_os.Text.{Text, txt, same, strip_suffix, ends_with}
use carbide_os.Text.Laws.{distinct_ends, strip_suffix_sound}
use carbide_os.Host.{FilePath}
use carbide_os.Files.{path}
use carbide_os.System.Slots.{extensions_dir, rollback_path, candidate_path, temporary_path}

-- The image that systemd merges under that name.
abbrev pub mergeable : Text → FilePath
mergeable n = path extensions_dir (n ++ txt ".raw")

raw_not_back : (n s : Text) → n ++ txt ".raw" ≢ s ++ txt "back"
unfolding txt same
raw_not_back n s = distinct_ends n s (txt ".raw") (txt "back") refl refl

raw_not_date : (n s : Text) → n ++ txt ".raw" ≢ s ++ txt "date"
unfolding txt same
raw_not_date n s = distinct_ends n s (txt ".raw") (txt "date") refl refl

raw_not_new : (n s : Text) → n ++ txt ".raw" ≢ s ++ txt ".new"
unfolding txt same
raw_not_new n s = distinct_ends n s (txt ".raw") (txt ".new") refl refl

split_rollback : txt ".rollback" ≡ txt ".roll" ++ txt "back"
unfolding txt
split_rollback = refl

split_candidate : txt ".candidate" ≡ txt ".candi" ++ txt "date"
unfolding txt
split_candidate = refl

module _ (os name version : Text) where
  rollback_end :
      name ++ (txt "_" ++ (os ++ (txt ".raw." ++ (version ++ txt ".rollback"))))
      ≡ (name ++ (txt "_" ++ (os ++ (txt ".raw." ++ (version ++ txt ".roll"))))) ++ txt "back"
  rollback_end = simp (split_rollback, append_assoc)

  candidate_end :
      name ++ (txt "_" ++ (os ++ (txt ".raw." ++ (version ++ txt ".candidate"))))
      ≡ (name ++ (txt "_" ++ (os ++ (txt ".raw." ++ (version ++ txt ".candi"))))) ++ txt "date"
  candidate_end = simp (split_candidate, append_assoc)

  -- The rollback copy of a version is never merged.
  pub mergeable_not_rollback : (n : Text) → mergeable n ≢ rollback_path os name version
  unfolding rollback_path
  mergeable_not_rollback n e = raw_not_back n _ (ap FilePath.name e ∙ rollback_end)

  -- Nor is a candidate.
  pub mergeable_not_candidate : (n : Text) → mergeable n ≢ candidate_path os name version
  unfolding candidate_path
  mergeable_not_candidate n e = raw_not_date n _ (ap FilePath.name e ∙ candidate_end)

stripped_candidate :
    (n name : Text) (o : Option Text)
    → strip_suffix name (txt ".candidate") ≡ o
    → is_some o ≡ true
    → n ++ txt ".raw" ≢ name
stripped_candidate n name none e t p = cc
stripped_candidate n name (some r) e t p =
    raw_not_date n (r ++ txt ".candi")
      (p ∙ strip_suffix_sound name (txt ".candidate") e ∙ simp (split_candidate, append_assoc))

-- Nor is any other file whose name ends like a candidate's.
pub mergeable_not_candidate_name :
    (n name : Text)
    → ends_with name (txt ".candidate") ≡ true
    → mergeable n ≢ path extensions_dir name
unfolding ends_with
mergeable_not_candidate_name n name t e = stripped_candidate n name _ refl t (ap FilePath.name e)

-- Nor is a half-made file.
pub mergeable_not_temporary : (n : Text) (target : FilePath) → mergeable n ≢ temporary_path target
unfolding temporary_path
mergeable_not_temporary n target e =
    raw_not_new n _ (ap FilePath.name e ∙ sym (append_assoc (txt ".") target.name (txt ".new")))

-- The name of a rollback copy, of a candidate or of a half-made file is never the name of an image that
-- gets merged, whatever extension, base version and version they are made of.
pub mergeable-private :
    (n os name version : Text) (target : FilePath)
    → (mergeable n ≢ rollback_path os name version)
      × (mergeable n ≢ candidate_path os name version)
      × (mergeable n ≢ temporary_path target)
mergeable-private n os name version target = (
  mergeable_not_rollback os name version n,
  mergeable_not_candidate os name version n,
  mergeable_not_temporary n target,
)
