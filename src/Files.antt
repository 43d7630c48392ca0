-- ===== src/Files.antt =====
-- internal/config/atomic.go: files on disk, and the write that replaces one in a single rename.
--
-- `broken` says which operations the system fails; a directory is no file. What a temporary file
-- holds is not kept, since nothing reads it: `temps` has the paths that the temporary files which
-- exist are for.
pub mod Laws
pub mod Checked
pub mod Moves
use uncut_core.Base.{
  eqb, if◌then◌else◌, ok, err, Exec, Map, lookup, insert, erase, ℕ, Bool, not, Option, none, some,
  List, [], ◌∷◌, ◌++◌,
}
use uncut_core.Text.{Text, text_eq, every}
use uncut_core.Text.Search.{strip_prefix}

pub data DiskOp : Type 0 where
  make_dir read_dir : Text → DiskOp
  read remove : Text → DiskOp
  create_temp write_temp chmod_temp sync_temp close_temp remove_temp : Text → DiskOp
  rename_temp : Text → DiskOp
  stat create write : Text → DiskOp
  rename : Text → Text → DiskOp

pub record File : Type 0 where
  pub bytes : Text
  pub perm : ℕ

pub record Disk : Type 0 where
  pub files : Map Text File
  pub temps : List Text
  pub broken : DiskOp → Bool

-- The deferred clean-up of a write that failed, whose own error is ignored.
unfoldable pub abandoned : Text → Disk → Disk
abandoned path d = if d.broken (remove_temp path) then record d { temps = path ∷ d.temps } else d

unfoldable pub write_file_atomic : Text → Text → ℕ → Exec Disk DiskOp (Unit {0})
unfolding abandoned insert
write_file_atomic path contents mode d =
    if d.broken (create_temp path)
    then (err (create_temp path), d)
    else if d.broken (write_temp path)
    then (err (write_temp path), abandoned path d)
    else if d.broken (chmod_temp path)
    then (err (chmod_temp path), abandoned path d)
    else if d.broken (sync_temp path)
    then (err (sync_temp path), abandoned path d)
    else if d.broken (close_temp path)
    then (err (close_temp path), abandoned path d)
    else if d.broken (rename_temp path)
    then (err (rename_temp path), abandoned path d)
    else (
      ok tt,
      record d { files = insert path (record { bytes = contents; perm = mode }) d.files },
    )

abbrev pub data_of : Option File → Option Text
data_of none = none
data_of (some f) = some f.bytes

-- What a path holds.
unfoldable pub content : Text → Disk → Option Text
unfolding lookup
content path d = data_of (lookup path d.files)

-- `os.ReadFile`; none where it fails.
unfoldable pub read_file : Text → Disk → Option Text
unfolding content
read_file path d = if d.broken (read path) then none else content path d

-- `filepath.Join` of a clean directory and a name.
unfoldable pub join_path : Text → Text → Text
join_path dir name = dir ++ (b'/' ∷ name)

-- The name that a path has in the directory, if it stands directly in it.
unfoldable pub name_in : Text → Text → Option Text
unfolding strip_prefix
name_in dir path = elim (strip_prefix (dir ++ b'/' ∷ []) path) [
  | none ↦ none
  | some name ↦ if every (λ c. not (eqb c b'/')) name then some name else none
]

-- `os.ReadDir`, the names of the files alone.
unfoldable pub names_in : Text → Map Text File → List Text
unfolding name_in
names_in dir [] = []
names_in dir ((path, f) ∷ rest) =
    let others = names_in dir rest in
    elim (name_in dir path) [ none ↦ others | some name ↦ name ∷ others ]

-- `os.Remove`, whose error the callers ignore.
unfoldable pub remove_file : Text → Disk → Disk
unfolding erase
remove_file path d = if d.broken (remove path) then d else record d { files = erase path d.files }
