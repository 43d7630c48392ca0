-- ===== src/Core/Subscriptions/Files/Outside.antt =====
-- internal/core/subscriptions.go: a pass over the subscriptions stays in its directory.
use uncut_core.Base.{
  Bool-cases, ◌==◌, contains, Result, ok, err, Exec, lookup-erase, ◌≡◌, refl, ap, subst, ◌∙◌, inl,
  inr, if_neg, true, false, List, [], ◌∷◌, ◌++◌, arith,
}
use uncut_core.Text.{Text, text_eq}
use uncut_core.Text.Search.{strip_prefix, has_prefix}
use uncut_core.Config.{Client}
use uncut_core.Store.{DbError, Store, get_clients}
use uncut_core.Files.{
  DiskOp, make_dir, read_dir, remove, Disk, write_file_atomic, data_of, content, join_path,
  names_in, remove_file,
}
use uncut_core.Files.Laws.{content-write_file_atomic_other}
use uncut_core.Core.Subscriptions.Files.{
  RegenerateError, next_file, write_subscriptions, sub_hashes, sweep, swept, with_clients,
  regenerate_all_subscriptions,
}

-- The path does not start with the directory.
abbrev pub IsOutside : Text → Text → Type 0
IsOutside dir q = has_prefix (dir ++ b'/' ∷ []) q ≡ false

join_path-prefix : (dir name : Text) → has_prefix (dir ++ b'/' ∷ []) (join_path dir name) ≡ true
unfolding has_prefix strip_prefix join_path
join_path-prefix [] name = refl
join_path-prefix (c ∷ dir) name = ground (arith, join_path-prefix dir name)

join_path-apart : (dir name q : Text) → IsOutside dir q → (join_path dir name == q) ≡ false
join_path-apart dir name q o = elim (text_eq.dec (join_path dir name) q) [
  | yes e ↦ absurd (
      true-not-false (
        subst (λ (t : Text). has_prefix (dir ++ b'/' ∷ []) t ≡ true) e (join_path-prefix dir name)))
  | no n ↦ rw (if_neg _ n) refl
]
  where
    true-not-false : has_prefix (dir ++ b'/' ∷ []) q ≡ true → ⊥
    true-not-false h = cc (h, o)

module _ (dir q : Text) (o : IsOutside dir q) where
  next_file-outside :
      (name : Text) (r : Result DiskOp (Unit {0}) × Disk)
      (next : Exec Disk RegenerateError (Unit {0})) (d : Disk)
      → content q r.1 ≡ content q d
      → content q (next r.1).1 ≡ content q r.1
      → content q (next_file name r next).1 ≡ content q d
  next_file-outside name (err e, d') next d same step = same
  next_file-outside name (ok _, d') next d same step = step ∙ same

  write_subscriptions-outside :
      (payload : Client → Text) (cs : List Client) (d : Disk)
      → content q (write_subscriptions payload dir cs d).1 ≡ content q d
  unfolding write_subscriptions
  write_subscriptions-outside payload [] d = refl
  write_subscriptions-outside payload (c ∷ cs) d =
      let r = write_file_atomic (join_path dir c.sub_hash) (payload c) 420 d in
      next_file-outside c.name r (write_subscriptions payload dir cs) d
        (content-write_file_atomic_other (join_path dir c.sub_hash) (payload c) q 420 d
          (join_path-apart dir c.sub_hash q o))
        (write_subscriptions-outside payload cs r.1)

  remove-outside :
      (name : Text) (d : Disk) → content q (remove_file (join_path dir name) d) ≡ content q d
  unfolding remove_file content
  remove-outside name d = elim (Bool-cases (d.broken (remove (join_path dir name)))) [
    | inl b ↦ rw b refl
    | inr b ↦ rw b (
        ap data_of
          (lookup-erase (join_path dir name) q d.files ∙ rw (join_path-apart dir name q o) refl))
  ]

  sweep-outside :
      (keep names : List Text) (d : Disk) → content q (sweep dir keep names d) ≡ content q d
  unfolding sweep
  sweep-outside keep [] d = refl
  sweep-outside keep (name ∷ names) d = elim (Bool-cases (contains keep name)) [
    | inl b ↦ rw b (sweep-outside keep names d)
    | inr b ↦
        rw b (sweep-outside keep names (remove_file (join_path dir name) d) ∙ remove-outside name d)
  ]

  swept-outside :
      (cs : List Client) (r : Result RegenerateError (Unit {0}) × Disk)
      → content q (swept dir cs r).1 ≡ content q r.1
  swept-outside cs (err e, d) = refl
  swept-outside cs (ok _, d) = elim (Bool-cases (d.broken (read_dir dir))) [
    | inl b ↦ rw b refl
    | inr b ↦ rw b (sweep-outside (sub_hashes cs) (names_in dir d.files) d)
  ]

  with_clients-outside :
      (payload : Client → Text) (r : Result DbError (List Client)) (d : Disk)
      → content q (with_clients payload dir r d).1 ≡ content q d
  with_clients-outside payload (err e) d = refl
  with_clients-outside payload (ok cs) d =
      swept-outside cs (write_subscriptions payload dir cs d)
      ∙ write_subscriptions-outside payload cs d

  pub regenerate-outside :
      (payload : Client → Text) (s : Store) (d : Disk)
      → content q (regenerate_all_subscriptions payload dir s d).1 ≡ content q d
  unfolding regenerate_all_subscriptions
  regenerate-outside payload s d = elim (Bool-cases (d.broken (make_dir dir))) [
    | inl b ↦ rw b refl
    | inr b ↦ rw b (with_clients-outside payload (get_clients s) d)
  ]
