-- ===== src/StateFile/Atomic.antt =====
-- `store` replaces the state file all at once: an invariant of the files that does not look at the
-- staging file, and that a whole and flushed encoding of the state meets, is never broken.
use carbide_os.Prelude.{◌≡◌, sym, ◌++◌, true, ◌∷◌, []}
use carbide_os.Text.{Text}
use carbide_os.State.{State}
use carbide_os.Host.{Host, Fs, File, Result, ok, err}
use carbide_os.Effects.{map_err, lift, get_world, ◌>>=◌}
use carbide_os.Effects.Keeps.{Keeps}
use carbide_os.Effects.Hoare.{
  Hoare, Hoare-of_Keeps, Keeps-of_Hoare, Hoare-bind, Hoare-weaken, Hoare-fact, Hoare-get_host,
}
use carbide_os.Effects.Invariant.{Inv}
use carbide_os.Files.{put, erase}
use carbide_os.Files.Keeps.{Ignores, Keeps-create_dir_all, Keeps-sync_dir}
use carbide_os.Files.Hoare.{create_lem, write_all_lem, sync_all_lem, rename_lem}
use carbide_os.StateFile.{store, publish_state, state_dir, state_path, staging_path, unencodable}

-- A whole and flushed encoding of the state.
pub record IsEncoding (h : Host) (s : State) (f : File) : Type 0 where
  pub text : Text
  pub encoded : h.encode s ≡ ok text
  pub whole : f.bytes ≡ text ++ (10 ∷ [])
  pub flushed : f.synced ≡ true

module _ {E : Type 0} {Held : State → Type 0} {Now Ever : Fs → Type 0} {h : Host} where
  pub held_state :
      Hoare {E = E} h
        (Inv Held Now Ever)
        (get_world (λ w. w.held))
        (λ s w. Held s × Inv Held Now Ever w)
        (Inv Held Now Ever)
  unfolding get_world
  held_state = record { at = λ w i. (i.held, i) }

module _ {Held : State → Type 0} {Now Now' Ever : Fs → Type 0} (sub : (fs : Fs) → Now fs → Ever fs)
    (sub' : (fs : Fs) → Now' fs → Now fs) (h : Host) (ign : Ignores Now staging_path)
    (swap : (s : State) (fs : Fs) (f : File)
      → Held s
      → Now fs
      → IsEncoding h s f
      → Now' (put state_path f (erase staging_path fs))) where
  published :
      (s : State) (text : Text)
      → Held s
      → h.encode s ≡ ok text
      → Hoare h
          (Inv Held Now Ever)
          (publish_state text)
          (λ _. Inv Held Now' Ever)
          (Inv Held Now Ever)
  unfolding publish_state
  published s text hs e = Hoare-bind (create_lem sub h staging_path ign) λ _.
      Hoare-bind (write_all_lem sub h staging_path ign _) λ _.
        Hoare-bind (sync_all_lem sub h staging_path ign _) λ _.
          Hoare-bind
            (rename_lem sub h staging_path state_path _ Now' (λ fs f n z.
              swap s fs f hs n (record { text = text; encoded = e; whole = z.0; flushed = z.1 })))
            λ _.
              Hoare-weaken (λ _ w i. i)
                (λ w i. record { held = i.held; now = sub' w.fs i.now; ever = i.ever })
                (Hoare-of_Keeps (Keeps-sync_dir (λ fs n. sub fs (sub' fs n)) h state_dir))

  encoded_or_not :
      (s : State) (r : Result Text Text)
      → Held s
      → r ≡ h.encode s
      → Hoare h
          (Inv Held Now Ever)
          (map_err unencodable (lift r) >>= publish_state)
          (λ _. Inv Held Now' Ever)
          (Inv Held Now Ever)
  unfolding map_err ◌>>=◌
  encoded_or_not s (ok text) hs e = record { at = (published s text hs (sym e)).at }
  encoded_or_not s (err message) hs e = record { at = λ w i. i }

  -- It returns with a whole encoding of the held state in place.
  pub store_lem : Hoare h (Inv Held Now Ever) store (λ _. Inv Held Now' Ever) (Inv Held Now Ever)
  unfolding store
  store_lem = Hoare-bind (Hoare-of_Keeps (Keeps-create_dir_all sub h state_dir)) λ _.
      Hoare-bind held_state λ s. Hoare-fact λ hs.
        Hoare-bind (Hoare-get_host (λ h'. h'.encode s)) (λ r. Hoare-fact (encoded_or_not s r hs))

module _ {Held : State → Type 0} {Now Ever : Fs → Type 0} (sub : (fs : Fs) → Now fs → Ever fs)
    (h : Host) (ign : Ignores Now staging_path)
    (swap : (s : State) (fs : Fs) (f : File)
      → Held s
      → Now fs
      → IsEncoding h s f
      → Now (put state_path f (erase staging_path fs))) where
  pub Keeps-store : Keeps h (Inv Held Now Ever) store
  Keeps-store = Keeps-of_Hoare (store_lem sub (λ fs n. n) h ign swap)
