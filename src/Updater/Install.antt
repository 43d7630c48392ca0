-- ===== src/Updater/Install.antt =====
-- internal/updater/singbox.go: InstallSingboxVersion as a whole.
use uncut_core.Base.{
  if◌then◌else◌, Bool-cases, ◌==◌, Result, ok, err, lookup, lookup-insert, lookup-erase, ◌≡◌, refl,
  sym, ap, ◌∙◌, ◌⊎◌, inl, inr, Bool, true, false, Option, none, some, List, [], ◌∷◌, arith,
}
use uncut_core.Text.{Text, text_eq}
use uncut_core.Files.{make_dir, create, write, File, Disk, remove_file}
use uncut_core.Updater.{
  Item, entry, damaged, Download, no_answer, status, not_gzip, archive, UpdateError, not_downloaded,
  bad_status, bad_gzip, no_target_dir, bad_tar, not_created, not_written, no_binary, not_verified,
  not_replaced, tmp_of, bak_of, is_binary, opened, put_tmp, unpack_binary, unpack, swap, verified,
  install,
}
use uncut_core.Updater.Laws.{tmp-ne-target, tmp-ne-bak, Kept, swap-cases}

-- The first binary of an archive, if it can be read whole and nothing damaged stands before it.
abbrev pub first_binary : List Item → Option Text
first_binary [] = none
first_binary (damaged ∷ items) = none
first_binary (entry name bytes whole ∷ items) =
    if is_binary name then (if whole then some bytes else none) else first_binary items

module _ (path : Text) where
  -- The other paths are as they were.
  abbrev Others : Disk → Disk → Type 0
  Others d r =
      (other : Text) → (path == other) ≡ false → lookup other r.files ≡ lookup other d.files

  put_tmp-Others : (bytes : Text) (d : Disk) → Others d (put_tmp path bytes d)
  put_tmp-Others bytes d other apart =
      lookup-insert path other (opened (lookup path d.files) bytes) d.files ∙ rw apart refl

  put_tmp-file :
      (bytes : Text) (d : Disk)
      → (f : File) × (lookup path (put_tmp path bytes d).files ≡ some f) × (f.bytes ≡ bytes)
  put_tmp-file bytes d = (
    opened (lookup path d.files) bytes,
    lookup-insert path path (opened (lookup path d.files) bytes) d.files ∙ ground arith,
    opened-bytes (lookup path d.files),
  )
    where
      opened-bytes : (o : Option File) → (opened o bytes).bytes ≡ bytes
      opened-bytes none = refl
      opened-bytes (some f) = refl

  abbrev UnpackCases : Option Text → Disk → Result UpdateError Bool × Disk → Type 0
  UnpackCases binary d r =
      ((r.0 ≡ ok true)
        × (f : File) × (lookup path r.1.files ≡ some f)
        × (binary ≡ some f.bytes)
        × Others d r.1)
      ⊎ ((r.0 ≡ ok false) × Others d r.1)
      ⊎ ((e : UpdateError) × (r.0 ≡ err e) × Others d r.1)

  unpack_binary-cases :
      (bytes : Text) (whole : Bool) (d : Disk)
      → UnpackCases (if whole then some bytes else none) d (unpack_binary path bytes whole d)
  unfolding unpack_binary
  unpack_binary-cases bytes whole d = elim (Bool-cases (d.broken (create path))) [
    | inl b ↦ rw b (inr (inr (not_created, refl, λ other _. refl)))
    | inr w ↦ rw w (elim (Bool-cases (d.broken (write path))) [
      | inl b ↦ rw b (inr (inr (not_written, refl, put_tmp-Others [] d)))
      | inr w' ↦ rw w' (elim (Bool-cases whole) [
        | inl all ↦
            let (f, held, same) = put_tmp-file bytes d in
            rw all (inl (refl, f, held, ap some (sym same), put_tmp-Others bytes d))
        | inr part ↦ rw part (inr (inr (not_written, refl, put_tmp-Others bytes d)))
      ])
    ])
  ]

  unpack-cases :
      (items : List Item) (d : Disk) → UnpackCases (first_binary items) d (unpack path items d)
  unfolding unpack
  unpack-cases [] d = inr (inl (refl, λ other _. refl))
  unpack-cases (damaged ∷ items) d = inr (inr (bad_tar, refl, λ other _. refl))
  unpack-cases (entry name bytes whole ∷ items) d = elim (Bool-cases (is_binary name)) [
    | inl b ↦ rw b (unpack_binary-cases bytes whole d)
    | inr n ↦ rw n (unpack-cases items d)
  ]

module _ (target : Text) (d : Disk) where
  Kept-from :
      (r r' : Disk)
      → lookup target r.files ≡ lookup target d.files
      → Kept target r r'
      → Kept target d r'
  Kept-from r r' same (inl k) = inl (k ∙ same)
  Kept-from r r' same (inr (gone, aside)) = inr (gone, aside ∙ same)

  removed-Kept :
      (r : Disk)
      → lookup target r.files ≡ lookup target d.files
      → Kept target d (remove_file (tmp_of target) r)
  unfolding remove_file
  removed-Kept r same =
      inl (ground (arith, same, tmp-ne-target target, lookup-erase (tmp_of target) target r.files))

module _ (runs : Option File → Bool) (target : Text) (d : Disk) where
  abbrev VerifyCases : File → Result UpdateError (Unit {0}) × Disk → Type 0
  VerifyCases f r =
      ((r.0 ≡ ok tt) × (runs (some f) ≡ true) × (lookup target r.1.files ≡ some f))
      ⊎ ((e : UpdateError) × (r.0 ≡ err e) × Kept target d r.1)

  verified-cases :
      (f : File) (r : Disk)
      → lookup (bak_of target) d.files ≡ none
      → lookup (tmp_of target) r.files ≡ some f
      → Others (tmp_of target) d r
      → VerifyCases f (verified runs target true r)
  verified-cases f r stale held others =
      let same = others target (tmp-ne-target target) in
      elim (Bool-cases (runs (some f))) [
        | inr n ↦ rw held (rw n (inr (not_verified, refl, removed-Kept target d r same)))
        | inl runs_well ↦ rw held (
            rw runs_well
              (elim (swap-cases target f r (others (bak_of target) (tmp-ne-bak target) ∙ stale)
                held) [
                  | inl (done, new) ↦ inl (done, refl, new)
                  | inr (op, failed, kept) ↦
                      inr
                        (not_replaced op, failed, Kept-from target d r (swap target r).1 same kept)
                ]))
      ]

module _ (runs : Option File → Bool) (target dir : Text) (d : Disk) where
  -- The two ways in which an update can end.
  abbrev pub InstallCases : Download → Result UpdateError (Unit {0}) × Disk → Type 0
  InstallCases download r =
      ((r.0 ≡ ok tt)
        × (items : List Item) × (f : File) × (download ≡ archive items)
        × (first_binary items ≡ some f.bytes)
        × (runs (some f) ≡ true)
        × (lookup target r.1.files ≡ some f))
      ⊎ ((e : UpdateError) × (r.0 ≡ err e) × Kept target d r.1)

  -- With no backup left over from before: an update that ends well leaves in the place of the binary
  -- the first one of the archive, which has been run; one that fails leaves the old binary in its
  -- place, or as the backup with nothing in its place.
  pub install_lem :
      (download : Download)
      → lookup (bak_of target) d.files ≡ none
      → InstallCases download (install runs target dir download d)
  unfolding install
  install_lem (no_answer e) stale = inr (not_downloaded e, refl, inl refl)
  install_lem (status n) stale = inr (bad_status n, refl, inl refl)
  install_lem not_gzip stale = inr (bad_gzip, refl, inl refl)
  install_lem (archive items) stale = elim (Bool-cases (d.broken (make_dir dir))) [
    | inl b ↦ rw b (inr (no_target_dir, refl, inl refl))
    | inr w ↦ rw w (elim (unpack-cases (tmp_of target) items d) [
      | inl (found, f, held, first, others) ↦
          rw found
            (elim (verified-cases runs target d f (unpack (tmp_of target) items d).1 stale held
              others) [
                | inl (done, runs_well, new) ↦ inl (done, items, f, refl, first, runs_well, new)
                | inr failed ↦ inr failed
              ])
      | inr (inl (missing, others)) ↦ rw missing (
          inr (
            no_binary,
            refl,
            removed-Kept target d (unpack (tmp_of target) items d).1
                (others target (tmp-ne-target target)),
          ))
      | inr (inr (e, failed, others)) ↦
          rw failed (inr (e, refl, inl (others target (tmp-ne-target target))))
    ])
  ]
