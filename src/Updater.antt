-- ===== src/Updater.antt =====
-- internal/updater/singbox.go: the installed sing-box, and the swap that replaces it.
--
-- The answer of the download is a parameter: what the server sent, once Go's gzip and tar have read
-- it.
pub mod Laws
pub mod Install
use uncut_core.Base.{
  if◌then◌else◌, ◌==◌, Result, ok, err, Exec, ◌>>=◌, lookup, insert, ℕ, Bool, true, false, ◌||◌,
  Option, none, some, List, [], ◌∷◌, ◌++◌,
}
use uncut_core.Text.{Text, codes, text_eq, is_blank}
use uncut_core.Text.Search.{trim_prefix, has_prefix}
use uncut_core.Text.Split.{split}
use uncut_core.Text.Trim.{trim_space}
use uncut_core.Files.{DiskOp, make_dir, create, write, File, Disk, join_path, remove_file}
use uncut_core.Files.Moves.{stats, rename_file}

-- `strings.TrimPrefix(tag, "v")`
unfoldable pub version_of : Text → Text
version_of tag = trim_prefix (codes "v") tag

-- The versions of a page of releases, in order; a tag that names none is left out.
unfoldable pub available_versions : List Text → List Text
available_versions [] = []
available_versions (tag ∷ tags) =
    let rest = available_versions tags in
    if is_blank (version_of tag) then rest else version_of tag ∷ rest

unfoldable pub volume_bin : Text → Text
volume_bin install_dir = join_path (join_path install_dir (codes "bin")) (codes "sing-box")

-- A copy on the volume wins over the one of the image.
unfoldable pub sing_box_bin : Text → Disk → Text
sing_box_bin install_dir d =
    if stats (volume_bin install_dir) d then volume_bin install_dir else codes "sing-box"

abbrev first_line : List Text → Text
first_line [] = []
first_line (line ∷ lines) = line

-- `output` is what the binary prints when it is asked for its version, none if it fails.
unfoldable pub current_version : Option Text → Text
current_version none = []
current_version (some output) =
    trim_space (trim_prefix (codes "sing-box version") (trim_space (first_line (split 10 output))))

unfoldable pub release_url : Text → Text → Text
release_url version arch =
    let tag = if has_prefix (codes "v") version then version else b'v' ∷ version in
    codes "https://github.com/shtorm-7/sing-box-extended/releases/download/"
    ++ (tag
        ++ (codes "/sing-box-"
            ++ (version_of tag ++ (codes "-linux-" ++ (arch ++ codes ".tar.gz")))))

-- What the archive holds, in order: an entry with the bytes that could be read and whether they are
-- all, or a header that cannot be read.
pub data Item : Type 0 where
  entry : Text → Text → Bool → Item
  damaged : Item

pub data Download : Type 0 where
  no_answer : Text → Download
  status : ℕ → Download
  not_gzip : Download
  archive : List Item → Download

pub data UpdateError : Type 0 where
  not_downloaded : Text → UpdateError
  bad_status : ℕ → UpdateError
  bad_gzip no_target_dir bad_tar : UpdateError
  not_created not_written : UpdateError
  no_binary not_verified : UpdateError
  not_replaced : DiskOp → UpdateError

unfoldable pub tmp_of : Text → Text
tmp_of target = target ++ codes ".tmp"

unfoldable pub bak_of : Text → Text
bak_of target = target ++ codes ".bak"

-- `strings.HasSuffix`
unfoldable pub has_suffix : Text → Text → Bool
has_suffix suffix [] = [] == suffix
has_suffix suffix (c ∷ s) = (c ∷ s) == suffix || has_suffix suffix s

unfoldable pub is_binary : Text → Bool
is_binary name = has_suffix (codes "/sing-box") name || name == codes "sing-box"

-- A file that exists keeps its mode when it is opened; what is written goes to its start.
abbrev opened : Option File → Text → File
opened none bytes = record { bytes = bytes; perm = 493 }
opened (some f) bytes = record { bytes = bytes; perm = f.perm }

abbrev put_tmp : Text → Text → Disk → Disk
put_tmp path bytes d = record d { files = insert path (opened (lookup path d.files) bytes) d.files }

-- A write that fails is taken to have written nothing.
unfoldable pub unpack_binary : Text → Text → Bool → Exec Disk UpdateError Bool
unpack_binary path bytes whole d =
    if d.broken (create path)
    then (err not_created, d)
    else if d.broken (write path)
    then (err not_written, put_tmp path [] d)
    else if whole
    then (ok true, put_tmp path bytes d)
    else (err not_written, put_tmp path bytes d)

-- Whether the archive had the binary, which is then in the temporary file.
unfoldable pub unpack : Text → List Item → Exec Disk UpdateError Bool
unpack path [] d = (ok false, d)
unpack path (damaged ∷ items) d = (err bad_tar, d)
unpack path (entry name bytes whole ∷ items) d =
    if is_binary name then unpack_binary path bytes whole d else unpack path items d

-- Puts the old binary out of the way; a failure is ignored.
unfoldable pub set_aside : Text → Disk → Disk
set_aside target d = if stats target d then (rename_file target (bak_of target) d).1 else d

unfoldable pub bring_back : Text → Disk → Disk
bring_back target d =
    if stats (bak_of target) d then (rename_file (bak_of target) target d).1 else d

abbrev replaced : Text → Result DiskOp (Unit {0}) → Exec Disk UpdateError (Unit {0})
replaced target (ok _) d = (ok tt, remove_file (bak_of target) d)
replaced target (err op) d = (err (not_replaced op), bring_back target d)

-- The new binary takes the place of the old one.
unfoldable pub swap : Text → Exec Disk UpdateError (Unit {0})
swap target d =
    let r = rename_file (tmp_of target) target (set_aside target d) in replaced target r.0 r.1

-- `runs` says whether a file, started with the argument "version", exits well.
module _ (runs : Option File → Bool) (target : Text) where
  abbrev verified : Bool → Exec Disk UpdateError (Unit {0})
  verified false d = (err no_binary, remove_file (tmp_of target) d)
  verified true d =
      if runs (lookup (tmp_of target) d.files)
      then swap target d
      else (err not_verified, remove_file (tmp_of target) d)

  -- `dir` is the directory of the target.
  unfoldable pub install : Text → Download → Exec Disk UpdateError (Unit {0})
  install dir (no_answer e) d = (err (not_downloaded e), d)
  install dir (status n) d = (err (bad_status n), d)
  install dir not_gzip d = (err bad_gzip, d)
  install dir (archive items) d =
      if d.broken (make_dir dir)
      then (err no_target_dir, d)
      else (unpack (tmp_of target) items >>= verified) d
