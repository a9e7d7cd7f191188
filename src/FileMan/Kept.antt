-- ===== src/FileMan/Kept.antt =====
-- src/lib/fileman.c: what was written is read.
use freenote_probe.Base.{
  ℕ, ◌-◌, ◌<◌, Bool, true, false, Option, none, some, ◌∷◌, ◌++◌, ◌==◌, ◌≡◌, ◌≢◌, refl, ap, sym, ◌∙◌,
  arith, if◌then◌else◌, length, Bool-cases, inl, inr,
}
use freenote_probe.Base.Int.{pos}
use freenote_probe.CString.{Bytes, streq}
use freenote_probe.CString.Search.{streq_iff}
use freenote_probe.Ran.{returns}
use freenote_probe.FileMan.{
  Files, fm_abs, fm_size, fm_read, fm_write, fm_create_pidfile, fm_remove_pidfile,
}

fm_abs-eq : (base_dir a b : Bytes) → fm_abs base_dir a ≡ fm_abs base_dir b → a ≡ b
unfolding fm_abs
fm_abs-eq base_dir a b e = behind base_dir e
  where
    behind : (p : Bytes) → p ++ b'/' ∷ a ≡ p ++ b'/' ∷ b → a ≡ b
    behind freenote_probe.Base.[] h = cc
    behind (x ∷ p) h = behind p (cc)

-- Writing a file leaves every other file as it is, also where it fails.
pub fm_read-other :
    (base_dir : Bytes) (files : Files) (filename buf other : Bytes)
    → other ≢ filename
    → fm_read base_dir (fm_write base_dir files filename buf).1 other ≡ fm_read base_dir files other
unfolding fm_write fm_read fm_size
fm_read-other base_dir files filename buf other differs =
    let path = fm_abs base_dir filename in
    let apart : streq (fm_abs base_dir other) path ≡ false =
      elim (Bool-cases (streq (fm_abs base_dir other) path)) [
        | inl t ↦ absurd (differs (fm_abs-eq base_dir other filename ((streq_iff _ _).0 t)))
        | inr t ↦ t
      ] in
    elim (Bool-cases (files.can_write path)) [ inl t ↦ rw t (rw apart refl) | inr t ↦ rw t refl ]

-- A text that is not empty and goes into a file that can be written and read is read from it again,
-- and every other file keeps its content.
pub fm_read-fm_write :
    (base_dir : Bytes) (files : Files) (filename buf : Bytes)
    → 0 < length buf
    → files.can_write (fm_abs base_dir filename) ≡ true
    → files.can_read (fm_abs base_dir filename) ≡ true
    → ((fm_write base_dir files filename buf).0 ≡ pos 1)
      × (fm_read base_dir (fm_write base_dir files filename buf).1 filename ≡ returns (some buf))
      × ((other : Bytes)
          → other ≢ filename
          → fm_read base_dir (fm_write base_dir files filename buf).1 other
            ≡ fm_read base_dir files other)
unfolding fm_write fm_read fm_size
fm_read-fm_write base_dir files filename buf some_byte writable readable =
    let path = fm_abs base_dir filename in
    let self : streq path path ≡ true = (streq_iff path path).1 refl in
    let more : (length buf == 0) ≡ false = ground arith in
    (
      rw writable (rw more refl),
      rw writable (rw self (rw more (rw readable refl))),
      λ other differs. fm_read-other base_dir files filename buf other differs,
    )

-- A file for the process id that was not there is not there after it was created and removed, and
-- every other file is as it was, also where the file cannot be opened.
pub pidfile-removed :
    (pid_file : Bytes) (pid : ℕ) (files : Files)
    → files.content pid_file ≡ none
    → files.can_unlink pid_file ≡ true
    → (path : Bytes)
    → (fm_remove_pidfile (some pid_file) (fm_create_pidfile (some pid_file) pid files).1).content
        path
      ≡ files.content path
unfolding fm_create_pidfile fm_remove_pidfile
pidfile-removed pid_file pid files gone removable path =
    let same : streq path pid_file ≡ true → none ≡ files.content path =
      λ t. sym gone ∙ ap files.content (sym ((streq_iff _ _).0 t)) in
    elim (Bool-cases (files.can_write pid_file)) [
      | inl w ↦ elim (Bool-cases (streq path pid_file)) [
        | inl t ↦ rw w (rw removable (rw t (same t)))
        | inr t ↦ rw w (rw removable (rw t refl))
      ]
      | inr w ↦ elim (Bool-cases (streq path pid_file)) [
        | inl t ↦ rw w (rw removable (rw t (same t)))
        | inr t ↦ rw w (rw removable (rw t refl))
      ]
    ]
