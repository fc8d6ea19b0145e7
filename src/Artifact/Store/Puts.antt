-- ===== src/Artifact/Store/Puts.antt =====
-- crates/artifact-store/src/local.rs: what a write to the store changes on the disk, on every branch.
use rage.Prelude.{
  Bool, Bool-cases, FilePath, String, ap, false, if◌then◌else◌, inl, inr, refl, subst, sym, true,
  ◌&&◌, ◌∙◌, ◌≡◌, ◌⊎◌,
}
use rage.Cache.Strong.{path_eq}
use rage.Artifact.Disk.{
  Allows, Disk, Os, Io, ok, error, ◌>>=◌, find, see, is_file, remove_file, write_file, rename_file,
}
use rage.Artifact.Disk.Writes.{write_file-Wrote}
use rage.Artifact.Store.{
  Hashing, LocalArtifactStore, created_mode, cas_file_path, tmp_path, publish, write_new,
  put_bytes_keyed, put_bytes,
}
use rage.Artifact.Store.Layout.{tmp_IsDotted, tmp_keyed_IsDotted}
use rage.Artifact.Store.Moves.{
  Ends, Same, IsDotted, IsPlain, IsTidy, Published, Left, Wrote-Left, moved-Published,
  rename_file-moved, is_file_dest,
}

module _ (hashing : Hashing) (store : LocalArtifactStore) where
  -- Every way in which a write of a new file ends.
  write_new-Ends :
      (os : Os) (d : Disk) (prefix key bytes : String)
      → IsDotted hashing store prefix
      → IsTidy hashing store d
      → is_file d (cas_file_path hashing store key) ≡ false
      → Ends
          (write_new os
            (tmp_path hashing store prefix key)
            (cas_file_path hashing store key)
            bytes
            d)
          (λ _ e. Published hashing store d e key bytes)
          (Left hashing store d)
  unfolding write_new
  write_new-Ends os d prefix key bytes dotted tidy absent =
      let tmp = tmp_path hashing store prefix key in
      let dest = cas_file_path hashing store key in
      let w =
        write_file-Wrote d tmp created_mode bytes tidy.closed (tidy.alone prefix key dotted)
          (tidy.no_link prefix key dotted) in
      let e = write_file d tmp created_mode bytes in
      let gone = moved-Published hashing store d e prefix key bytes dotted tidy w in
      elim (Bool-cases (os.make_dir dest && os.create tmp)) [
        | inr refused ↦
            rw (refused, write_new) (record { tidy = tidy; others = λ q plain. (refl, refl) })
        | inl made ↦
            rw (made, write_new)
              (elim (Bool-cases (os.rename dest)) [
                | inl moves ↦
                    rw (moves, publish)
                      (subst (λ z. Published hashing store d z key bytes)
                        (sym (rename_file-moved hashing store d e prefix key bytes dotted tidy w))
                        gone)
                | inr stays ↦
                    rw (stays, publish)
                      (subst
                        (λ b.
                          Ends (if b then ok tt (remove_file e tmp) else error e)
                            (λ _ z. Published hashing store d z key bytes) (Left hashing store d))
                        (sym
                          (is_file_dest hashing store d e prefix key bytes dotted tidy w ∙ absent))
                        (Wrote-Left hashing store d e prefix key bytes dotted tidy w))
              ])
      ]

  -- A file under a key stays; otherwise it is put there.
  abbrev pub Kept : Disk → Disk → String → String → Type 0
  Kept d e key bytes =
      ((is_file d (cas_file_path hashing store key) ≡ true) × (e ≡ d))
      ⊎ ((is_file d (cas_file_path hashing store key) ≡ false)
          × Published hashing store d e key bytes)

  Ends-map :
      {A : Type 0} (r : Io A) (P Q : A → Disk → Type 0) (R : Disk → Type 0)
      → ((a : A) (d : Disk) → P a d → Q a d)
      → Ends r P R
      → Ends r Q R
  Ends-map (ok a d) P Q R f h = f a d h
  Ends-map (error d) P Q R f h = h

  pub put_bytes_keyed-Ends :
      (os : Os) (d : Disk) (key bytes : String)
      → IsTidy hashing store d
      → Ends
          (put_bytes_keyed hashing store os key bytes d)
          (λ _ e. Kept d e key bytes)
          (Left hashing store d)
  unfolding put_bytes_keyed
  put_bytes_keyed-Ends os d key bytes tidy =
      let write =
        write_new os (tmp_path hashing store ".tmp-keyed-" key) (cas_file_path hashing store key)
          bytes d in
      let P : Bool → Type 0 = λ b.
        Ends (if b then ok tt d else write) (λ _ e. Kept d e key bytes) (Left hashing store d) in
      elim (Bool-cases (is_file d (cas_file_path hashing store key))) [
        | inl old ↦ subst P (sym old) (inl (old, refl))
        | inr new ↦ subst P (sym new) (
            Ends-map write (λ _ e. Published hashing store d e key bytes)
              (λ _ e. Kept d e key bytes) (Left hashing store d) (λ _ e h. inr (new, h))
              (write_new-Ends os d ".tmp-keyed-" key bytes (tmp_keyed_IsDotted store.pid) tidy new))
      ]

  pub put_bytes-Ends :
      (os : Os) (d : Disk) (bytes : String)
      → IsTidy hashing store d
      → Ends
          (put_bytes hashing store os bytes d)
          (λ a e. (a ≡ hashing.hash bytes) × Kept d e (hashing.hash bytes) bytes)
          (Left hashing store d)
  unfolding put_bytes
  put_bytes-Ends os d bytes tidy =
      let key = hashing.hash bytes in
      let write =
        write_new os (tmp_path hashing store ".tmp-" key) (cas_file_path hashing store key) bytes
          d in
      let P : Bool → Type 0 = λ b.
        Ends (if b then ok key d else (write >>= λ r. ok key r.1))
          (λ a e. (a ≡ key) × Kept d e key bytes) (Left hashing store d) in
      elim (Bool-cases (is_file d (cas_file_path hashing store key))) [
        | inl old ↦ subst P (sym old) (refl, inl (old, refl))
        | inr new ↦
            subst P (sym new) (
              go write new
                (write_new-Ends os d ".tmp-" key bytes (tmp_IsDotted store.pid) tidy new))
      ]
    where
      go :
          (r : Io (Unit {0}))
          → is_file d (cas_file_path hashing store (hashing.hash bytes)) ≡ false
          → Ends r
              (λ _ e. Published hashing store d e (hashing.hash bytes) bytes)
              (Left hashing store d)
          → Ends
              (r >>= λ r. ok (hashing.hash bytes) r.1)
              (λ a e. (a ≡ hashing.hash bytes) × Kept d e (hashing.hash bytes) bytes)
              (Left hashing store d)
      go (ok u e) new h = (refl, inr (new, h))
      go (error e) new h = h

  -- Where no call is refused, a write succeeds.
  put_ok :
      (os : Os) (d : Disk) (key bytes : String)
      → Allows os
      → (e : Disk) × (put_bytes_keyed hashing store os key bytes d ≡ ok tt e)
  unfolding put_bytes_keyed write_new
  put_ok os d key bytes allows =
      let dest = cas_file_path hashing store key in
      elim (Bool-cases (is_file d dest)) [
        | inl old ↦ (d, rw (old, put_bytes_keyed) refl)
        | inr new ↦ (
          rename_file (write_file d (tmp_path hashing store ".tmp-keyed-" key) created_mode bytes)
              (tmp_path hashing store ".tmp-keyed-" key) dest,
          rw
              (
                new,
                allows.make_dir dest,
                allows.create (tmp_path hashing store ".tmp-keyed-" key),
                allows.rename dest,
                put_bytes_keyed,
                write_new,
              )
              refl,
        )
      ]

  pub put_bytes_keyed-Kept :
      (os : Os) (d : Disk) (key bytes : String)
      → Allows os
      → IsTidy hashing store d
      → (e : Disk) × (put_bytes_keyed hashing store os key bytes d ≡ ok tt e) × Kept d e key bytes
  put_bytes_keyed-Kept os d key bytes allows tidy =
      let (e, done) = put_ok os d key bytes allows in
      (
        e,
        done,
        subst (λ r. Ends r (λ _ z. Kept d z key bytes) (Left hashing store d)) done
            (put_bytes_keyed-Ends os d key bytes tidy),
      )

  pub Kept-IsTidy :
      (d e : Disk) (key bytes : String)
      → IsTidy hashing store d
      → Kept d e key bytes
      → IsTidy hashing store e
  Kept-IsTidy d e key bytes tidy (inl (old, same)) = subst (IsTidy hashing store) (sym same) tidy
  Kept-IsTidy d e key bytes tidy (inr (new, p)) = p.tidy

  -- A write to the store changes nothing outside of it.
  pub Kept-Same :
      (d e : Disk) (key bytes : String) (q : FilePath)
      → path_eq (cas_file_path hashing store key) q ≡ false
      → IsPlain hashing store q
      → Kept d e key bytes
      → Same d e q
  Kept-Same d e key bytes q far plain (inl (old, same)) =
      (ap (λ z. find q z.names) same, ap (λ z. see z q) same)
  Kept-Same d e key bytes q far plain (inr (new, p)) = p.others q far plain
