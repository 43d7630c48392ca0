-- ===== src/Core/Subscriptions/Files/Sweep.antt =====
-- internal/core/subscriptions.go: which files a pass leaves in the subscription directory.
use uncut_core.Base.{
  Bool-cases, ◌==◌, contains, Result, ok, err, Map, lookup, insert, lookup-insert, lookup-erase, ℕ,
  ◌≡◌, refl, ap, ◌∙◌, inl, inr, Bool, true, false, not, ◌&&◌, ◌||◌, Option, none, some, List, [],
  ◌∷◌, ◌++◌, append_assoc, arith,
}
use uncut_core.Text.{Text, Text-discrete, text_eq}
use uncut_core.Text.Search.{strip_prefix}
use uncut_core.Text.Split.{Lacks}
use uncut_core.Config.{Client}
use uncut_core.Store.{Store, get_clients}
use uncut_core.Files.{
  make_dir, read_dir, remove, File, Disk, write_file_atomic, join_path, name_in, names_in,
  remove_file,
}
use uncut_core.Files.Laws.{Works, write_file_atomic-Works}
use uncut_core.Core.Subscriptions.Files.{
  RegenerateError, write_subscriptions, sub_hashes, sweep, swept, regenerate_all_subscriptions,
}

abbrev is_there : Option File → Bool
is_there none = false
is_there (some f) = true

-- There is a file at the path.
unfoldable pub present : Text → Disk → Bool
present path d = is_there (lookup path d.files)

append-cancel : (dir a b : Text) → dir ++ a ≡ dir ++ b → a ≡ b
append-cancel [] a b h = h
append-cancel (c ∷ dir) a b h = append-cancel dir a b (ground (arith, h))

tail-eq : (c : ℕ) (a b : Text) → c ∷ a ≡ c ∷ b → a ≡ b
tail-eq c a b h = ground (arith, h)

join_path-same : (dir a b : Text) → (join_path dir a == join_path dir b) ≡ (a == b)
unfolding join_path
join_path-same dir a b = elim (Text-discrete a b) [
  | yes e ↦ ground (arith, e)
  | no ne ↦ ground (
    arith,
    ne,
    λ (h : dir ++ (b'/' ∷ a) ≡ dir ++ (b'/' ∷ b)).
        tail-eq b'/' a b (append-cancel dir (b'/' ∷ a) (b'/' ∷ b) h),
  )
]

-- The path of a name of the directory is read as that name.
strip-append : (dir name : Text) → strip_prefix dir (dir ++ name) ≡ some name
unfolding strip_prefix
strip-append [] name = refl
strip-append (c ∷ dir) name = ground (arith, strip-append dir name)

name_in-join_path :
    (dir name : Text) → Lacks b'/' name → name_in dir (join_path dir name) ≡ some name
unfolding name_in join_path
name_in-join_path dir name l = ground (
  arith,
  l,
  ap (strip_prefix (dir ++ b'/' ∷ [])) (append_assoc dir (b'/' ∷ []) name),
  strip-append (dir ++ b'/' ∷ []) name,
)

names_in-present :
    (dir name : Text) (files : Map Text File)
    → Lacks b'/' name
    → is_there (lookup (join_path dir name) files) ≡ true
    → contains (names_in dir files) name ≡ true
unfolding names_in lookup
names_in-present dir name [] l h = ground arith
names_in-present dir name ((path, f) ∷ files) l h = elim (Text-discrete path (join_path dir name)) [
  | yes e ↦ ground (arith, e, name_in-join_path dir name l)
  | no ne ↦ ground (arith, ne, h, names_in-present dir name files l)
]

present-write :
    (dir a name contents : Text) (mode : ℕ) (d : Disk)
    → Works d
    → present (join_path dir name) (write_file_atomic (join_path dir a) contents mode d).1
      ≡ (a == name || present (join_path dir name) d)
unfolding present
present-write dir a name contents mode d w =
    rw (write_file_atomic-Works (join_path dir a) contents mode d w) (
      ground (
        arith,
        join_path-same dir a name,
        lookup-insert (join_path dir a) (join_path dir name)
            (record { bytes = contents; perm = mode }) d.files,
      ))

-- What the writes leave.
write_subscriptions_lem :
    (payload : Client → Text) (dir : Text) (cs : List Client) (d : Disk) (name : Text)
    → Works d
    → ((write_subscriptions payload dir cs d).0 ≡ ok tt)
      × Works (write_subscriptions payload dir cs d).1
      × (present (join_path dir name) (write_subscriptions payload dir cs d).1
          ≡ (contains (sub_hashes cs) name || present (join_path dir name) d))
unfolding write_subscriptions sub_hashes
write_subscriptions_lem payload dir [] d name w = (refl, w, refl)
write_subscriptions_lem payload dir (c ∷ cs) d name w =
    let path = join_path dir c.sub_hash in
    let written = write_file_atomic-Works path (payload c) 420 d w in
    let d' = record d { files = insert path (record { bytes = payload c; perm = 420 }) d.files } in
    let (done, works, there) = write_subscriptions_lem payload dir cs d' name w in
    let first : present (join_path dir name) d'
        ≡ (c.sub_hash == name || present (join_path dir name) d) =
      rw written at (present-write dir c.sub_hash name (payload c) 420 d w) in
    rw written (done, works, ground (arith, there, first))

present-remove :
    (dir a name : Text) (d : Disk)
    → Works d
    → present (join_path dir name) (remove_file (join_path dir a) d)
      ≡ (not (a == name) && present (join_path dir name) d)
unfolding present remove_file
present-remove dir a name d w = ground (
  arith,
  w (remove (join_path dir a)),
  join_path-same dir a name,
  lookup-erase (join_path dir a) (join_path dir name) d.files,
)

remove-Works : (path : Text) (d : Disk) → Works d → Works (remove_file path d)
unfolding remove_file
remove-Works path d w = rw (w (remove path)) w

-- What the sweep leaves.
sweep_lem :
    (dir : Text) (keep names : List Text) (d : Disk) (name : Text)
    → Works d
    → present (join_path dir name) (sweep dir keep names d)
      ≡ (present (join_path dir name) d && not (contains names name && not (contains keep name)))
unfolding sweep
sweep_lem dir keep [] d name w = ground arith
sweep_lem dir keep (n ∷ names) d name w = elim (Bool-cases (contains keep n)) [
  | inl e ↦ rw e (ground (arith, e, sweep_lem dir keep names d name w))
  | inr e ↦ rw e (
      ground (
        arith,
        e,
        present-remove dir n name d w,
        sweep_lem dir keep names (remove_file (join_path dir n) d) name
            (remove-Works (join_path dir n) d w),
      ))
]

-- Nothing is left that no client keeps.
all_swept :
    (dir name : Text) (keep : List Text) (d : Disk)
    → Lacks b'/' name
    → (contains keep name ≡ true → present (join_path dir name) d ≡ true)
    → (present (join_path dir name) d
        && not (contains (names_in dir d.files) name && not (contains keep name)))
      ≡ contains keep name
unfolding present
all_swept dir name keep d l kept = ground (arith, kept, names_in-present dir name d.files l)

swept_lem :
    (dir : Text) (cs : List Client) (r : Result RegenerateError (Unit {0}) × Disk)
    → r.0 ≡ ok tt
    → Works r.1
    → swept dir cs r ≡ (ok tt, sweep dir (sub_hashes cs) (names_in dir r.1.files) r.1)
swept_lem dir cs (ok tt, d) h w = rw (w (read_dir dir)) refl
swept_lem dir cs (err e, d) h w = ground (arith, h)

-- When no operation of the system fails and the clients can be read, a pass succeeds, and a name
-- without a slash is that of a file in the directory exactly if it is the token of a client.
pub regenerate_all_subscriptions_lem :
    (payload : Client → Text) (dir : Text) (store : Store) (d : Disk) (name : Text)
    {cs : List Client}
    → Works d
    → get_clients store ≡ ok cs
    → Lacks b'/' name
    → ((regenerate_all_subscriptions payload dir store d).0 ≡ ok tt)
      × (present (join_path dir name) (regenerate_all_subscriptions payload dir store d).1
          ≡ contains (sub_hashes cs) name)
unfolding regenerate_all_subscriptions
regenerate_all_subscriptions_lem payload dir store d name {cs} w listed l =
    let d' = (write_subscriptions payload dir cs d).1 in
    let (done, works, there) = write_subscriptions_lem payload dir cs d name w in
    rw (w (make_dir dir)) (
      rw listed (
        rw (swept_lem dir cs (write_subscriptions payload dir cs d) done works) (
          refl,
          sweep_lem dir (sub_hashes cs) (names_in dir d'.files) d' name works
              ∙ all_swept dir name (sub_hashes cs) d' l (ground (arith, there)),
        )))
