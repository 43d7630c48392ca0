-- ===== src/Updater/Laws.antt =====
-- internal/updater/singbox.go: an update never loses the binary.
use uncut_core.Base.{
  if◌then◌else◌, Bool-cases, ◌==◌, Result, ok, err, Map, lookup, insert, erase, lookup-insert,
  lookup-erase, ◌≡◌, refl, ap, subst, ◌∙◌, ◌⊎◌, inl, inr, if_neg, false, none, some, [], ◌∷◌, ◌++◌,
  append-nil, arith,
}
use uncut_core.Text.{Text, codes, Text-discrete, text_eq}
use uncut_core.Files.{DiskOp, rename, File, Disk, remove_file}
use uncut_core.Files.Moves.{stats, rename_file, rename_file_cases}
use uncut_core.Updater.{
  UpdateError, not_replaced, tmp_of, bak_of, set_aside, bring_back, replaced, swap,
}

drop_front : (s a b : Text) → (s ++ a ≡ s ++ b) → a ≡ b
drop_front [] a b h = h
drop_front (c ∷ s) a b h = drop_front s a b (cc h)

apart : (s a b : Text) → (a == b) ≡ false → (s ++ a == s ++ b) ≡ false
apart s a b h = elim (text_eq.dec (s ++ a) (s ++ b)) [
  | yes e ↦ ground (arith, drop_front s a b e)
  | no n ↦ rw (if_neg _ n) refl
]

pub tmp-ne-target : (target : Text) → (tmp_of target == target) ≡ false
unfolding tmp_of Text-discrete
tmp-ne-target target =
    subst (λ s. (target ++ codes ".tmp" == s) ≡ false) (append-nil target)
      (apart target (codes ".tmp") [] refl)

bak-ne-target : (target : Text) → (bak_of target == target) ≡ false
unfolding bak_of Text-discrete
bak-ne-target target =
    subst (λ s. (target ++ codes ".bak" == s) ≡ false) (append-nil target)
      (apart target (codes ".bak") [] refl)

pub tmp-ne-bak : (target : Text) → (tmp_of target == bak_of target) ≡ false
unfolding tmp_of bak_of Text-discrete
tmp-ne-bak target = apart target (codes ".tmp") (codes ".bak") refl

-- What the paths hold after a file has moved.
lookup-moved :
    (old new path : Text) (f : File) (files : Map Text File)
    → lookup path (insert new f (erase old files))
      ≡ (if new == path then some f else if old == path then none else lookup path files)
lookup-moved old new path f files =
    lookup-insert new path f (erase old files) ∙ rw (lookup-erase old path files) refl

module _ (target : Text) where
  -- The old binary stays, or is the backup.
  abbrev Aside : Disk → Disk → Type 0
  Aside d r =
      (r ≡ d)
      ⊎ ((lookup target r.files ≡ none)
          × (lookup (bak_of target) r.files ≡ lookup target d.files)
          × (lookup (tmp_of target) r.files ≡ lookup (tmp_of target) d.files))

  set_aside-Aside : (d : Disk) → Aside d (set_aside target d)
  unfolding set_aside
  set_aside-Aside d = elim (Bool-cases (stats target d)) [
    | inr n ↦ rw n (inl refl)
    | inl there ↦ rw there (elim (rename_file_cases target (bak_of target) d) [
      | inl wrong ↦ inl (ap (λ r. r.1) wrong)
      | inr (f, held, done) ↦ inr (
        ground (
          arith,
          done,
          bak-ne-target target,
          lookup-moved target (bak_of target) target f d.files,
        ),
        ground (arith, done, held, lookup-moved target (bak_of target) (bak_of target) f d.files),
        ground (
          arith,
          done,
          tmp-ne-target target,
          tmp-ne-bak target,
          lookup-moved target (bak_of target) (tmp_of target) f d.files,
        ),
      )
    ])
  ]

  -- The old binary is in its place, or it is the backup and nothing is in its place.
  abbrev pub Kept : Disk → Disk → Type 0
  Kept d r =
      (lookup target r.files ≡ lookup target d.files)
      ⊎ ((lookup target r.files ≡ none) × (lookup (bak_of target) r.files ≡ lookup target d.files))

  stays : (d : Disk) → lookup (bak_of target) d.files ≡ none → bring_back target d ≡ d
  unfolding bring_back stats
  stays d h = ground (arith, h)

  bring_back-Kept :
      (d r : Disk)
      → lookup target r.files ≡ none
      → lookup (bak_of target) r.files ≡ lookup target d.files
      → Kept d (bring_back target r)
  unfolding bring_back
  bring_back-Kept d r gone aside = elim (Bool-cases (stats (bak_of target) r)) [
    | inr n ↦ rw n (inr (gone, aside))
    | inl there ↦ rw there (elim (rename_file_cases (bak_of target) target r) [
      | inl wrong ↦ rw wrong (inr (gone, aside))
      | inr (f, held, done) ↦
          rw done (
            inl (ground (arith, aside, held, lookup-moved (bak_of target) target target f r.files)))
    ])
  ]

  replaced-file :
      (f : File) (d : Disk)
      → lookup target
          (remove_file
            (bak_of target)
            (record d { files = insert target f (erase (tmp_of target) d.files) })).files
        ≡ some f
  unfolding remove_file
  replaced-file f d = ground (
    arith,
    bak-ne-target target,
    lookup-erase (bak_of target) target (insert target f (erase (tmp_of target) d.files)),
    lookup-moved (tmp_of target) target target f d.files,
  )

  module _ (new : File) (d : Disk) where
    abbrev pub SwapCases : Result UpdateError (Unit {0}) × Disk → Type 0
    SwapCases r =
        ((r.0 ≡ ok tt) × (lookup target r.1.files ≡ some new))
        ⊎ ((op : DiskOp) × (r.0 ≡ err (not_replaced op)) × Kept d r.1)

    -- Once the old binary is out of the way, or could not be moved.
    swap_from :
        (r : Disk)
        → lookup (tmp_of target) r.files ≡ some new
        → Kept d (bring_back target r)
        → SwapCases (
            replaced target
              (rename_file (tmp_of target) target r).0
              (rename_file (tmp_of target) target r).1)
    swap_from r held kept = elim (rename_file_cases (tmp_of target) target r) [
      | inl wrong ↦ rw wrong (inr (rename (tmp_of target) target, refl, kept))
      | inr (f, found, done) ↦ rw done (inl (refl, replaced-file f r ∙ cc (found, held)))
    ]

    pub swap-cases :
        lookup (bak_of target) d.files ≡ none
        → lookup (tmp_of target) d.files ≡ some new
        → SwapCases (swap target d)
    unfolding swap
    swap-cases stale held = elim (set_aside-Aside d) [
      | inl same ↦ rw same (swap_from d held (rw (stays d stale) (inl refl)))
      | inr (gone, aside, tmp) ↦
          swap_from (set_aside target d) (tmp ∙ held)
            (bring_back-Kept d (set_aside target d) gone aside)
    ]
