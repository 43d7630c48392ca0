-- ===== src/Files/Checked/Laws.antt =====
-- internal/setup/setup.go: what writeChecked leaves on disk.
use uncut_core.Base.{
  if◌then◌else◌, Bool-cases, ◌==◌, contains, Distinct, Distinct-snoc, Map, lookup, insert,
  lookup-insert, ℕ, ◌≡◌, refl, inl, inr, Bool, true, false, Option, none, some, List, [], ◌∷◌, ◌++◌,
  map, arith,
}
use uncut_core.Text.{Text, text_eq}
use uncut_core.Files.{read, Disk, write_file_atomic, content, read_file}
use uncut_core.Files.Laws.{Works, write_file_atomic-Works}
use uncut_core.Files.Checked.{Written, keep_previous, is_same, write_changed, put_back}

abbrev pub paths : Map Text Text → List Text
paths files = map (λ (p : Text × Text). p.0) files

-- The value that is left of two, the first if it is there.
abbrev pub or_else : Option Text → Option Text → Option Text
or_else none b = b
or_else (some a) b = some a

content-write :
    (path contents q : Text) (mode : ℕ) (d : Disk)
    → content q
        (record d { files = insert path (record { bytes = contents; perm = mode }) d.files })
      ≡ (if path == q then some contents else content q d)
unfolding content
content-write path contents q mode d =
    ground (arith, lookup-insert path q (record { bytes = contents; perm = mode }) d.files)

write-Works :
    (path contents : Text) (mode : ℕ) (d : Disk)
    → Works d
    → Works (write_file_atomic path contents mode d).1
write-Works path contents mode d w = rw (write_file_atomic-Works path contents mode d w) w

pub put_back-Works :
    (old : Map Text Text) (mode : ℕ) (d : Disk) → Works d → Works (put_back old mode d)
unfolding put_back
put_back-Works [] mode d w = w
put_back-Works ((path, prev) ∷ old) mode d w =
    put_back-Works old mode _ (write-Works path prev mode d w)

pub absent : (q : Text) (m : Map Text Text) → contains (paths m) q ≡ false → lookup q m ≡ none
unfolding lookup
absent q [] h = refl
absent q ((k, v) ∷ m) h = ground (arith, absent q m)

-- The second loop writes each previous version, where no path stands twice.
pub content-put_back :
    (old : Map Text Text) (mode : ℕ) (d : Disk) (q : Text)
    → Works d
    → Distinct (paths old)
    → content q (put_back old mode d) ≡ or_else (lookup q old) (content q d)
unfolding put_back lookup
content-put_back [] mode d q w u = refl
content-put_back ((path, prev) ∷ old) mode d q w u =
    rw (write_file_atomic-Works path prev mode d w) (
      ground (
        arith,
        u,
        content-put_back old mode
            (record d { files = insert path (record { bytes = prev; perm = mode }) d.files }) q w
            u.1,
        content-write path prev q mode d,
        absent q old,
      ))

paths-insert :
    (q : Text) (v : Text) (m : Map Text Text)
    → paths (insert q v m) ≡ (if contains (paths m) q then paths m else paths m ++ q ∷ [])
unfolding insert
paths-insert q v [] = refl
paths-insert q v ((k, w) ∷ m) = ground (arith, paths-insert q v m)

keep_previous-Distinct :
    (q : Text) (prev : Option Text) (m : Map Text Text)
    → Distinct (paths m)
    → Distinct (paths (keep_previous q prev m))
unfolding keep_previous
keep_previous-Distinct q none m u = u
keep_previous-Distinct q (some v) m u = elim (Bool-cases (contains (paths m) q)) [
  | inl e ↦ rw (paths-insert q v m) (rw e u)
  | inr e ↦ rw (paths-insert q v m) (rw e (Distinct-snoc (paths m) q u e))
]

lookup-keep_previous :
    (q j : Text) (prev : Option Text) (m : Map Text Text)
    → lookup j (keep_previous q prev m) ≡ (if q == j then or_else prev (lookup j m) else lookup j m)
unfolding keep_previous
lookup-keep_previous q j none m = ground arith
lookup-keep_previous q j (some v) m = ground (arith, lookup-insert q j v m)

-- What the first loop leaves, if no operation of the system fails.
pub record IsWritten (files : Map Text Text) (old : Map Text Text) (d : Disk) (w : Written)
    : Type 0 where
  pub works : Works w.disk
  pub succeeded : w.outcome.failure ≡ none
  pub apart : Distinct (paths w.old)
  pub kept :
      (q : Text)
      → lookup q w.old
        ≡ (if contains (paths files) q then or_else (content q d) (lookup q old) else lookup q old)
  pub wrote : (q : Text) → content q w.disk ≡ or_else (lookup q files) (content q d)

pub read_file-Works : (q : Text) (d : Disk) → Works d → read_file q d ≡ content q d
unfolding read_file
read_file-Works q d w = rw (w (read q)) refl

is_same-eq : (o : Option Text) (contents : Text) → is_same o contents ≡ true → o ≡ some contents
is_same-eq none contents h = ground arith
is_same-eq (some prev) contents h = ground arith

pub write_changed_lem :
    (files : Map Text Text) (mode : ℕ) (old : Map Text Text) (changed : Bool) (d : Disk)
    → Works d
    → Distinct (paths files)
    → Distinct (paths old)
    → IsWritten files old d (write_changed files mode old changed d)
unfolding write_changed lookup
write_changed_lem [] mode old changed d w u v = record {
  works = w;
  succeeded = refl;
  apart = v;
  kept = λ q. refl;
  wrote = λ q. refl;
}
write_changed_lem ((path, contents) ∷ files) mode old changed d w u v =
    let old' = keep_previous path (content path d) old in
    let v' = keep_previous-Distinct path (content path d) old v in
    let d' = record d { files = insert path (record { bytes = contents; perm = mode }) d.files } in
    rw (read_file-Works path d w) (elim (Bool-cases (is_same (content path d) contents)) [
      | inl e ↦ rw e (
          let rest = write_changed_lem files mode old' changed d w u.1 v' in
          record {
            works = rest.works;
            succeeded = rest.succeeded;
            apart = rest.apart;
            kept = λ q.
                ground (arith, u.0, rest.kept q, lookup-keep_previous path q (content path d) old);
            wrote = λ q.
                ground (
                  arith,
                  rest.wrote q,
                  u.0,
                  is_same-eq (content path d) contents e,
                  absent q files,
                );
          })
      | inr e ↦ rw e (
          rw (write_file_atomic-Works path contents mode d w) (
            let rest = write_changed_lem files mode old' true d' w u.1 v' in
            record {
              works = rest.works;
              succeeded = rest.succeeded;
              apart = rest.apart;
              kept = λ q. ground (
                arith,
                u.0,
                rest.kept q,
                lookup-keep_previous path q (content path d) old,
                content-write path contents q mode d,
              );
              wrote = λ q.
                  ground (
                    arith,
                    rest.wrote q,
                    u.0,
                    content-write path contents q mode d,
                    absent q files,
                  );
            }))
    ])
