-- ===== src/Nodeops/Certificates.antt =====
-- internal/nodeops/nodeops.go: the commands that change files beside the store: certificates, the
-- sing-box binary and backups.
pub mod Laws
use uncut_core.Text.{Text, codes, is_blank, to_lower}
use uncut_core.Base.{
  if◌then◌else◌, Result, ok, err, Exec, pure, lift, ◌>>=◌, ◌>>◌, Bool, Option, none, some, ◌++◌,
}
use uncut_core.Text.Trim.{trim_space}
use uncut_core.Config.{Settings}
use uncut_core.Store.{DbError, Store, restore}
use uncut_core.Files.{DiskOp, make_dir, File, Disk, write_file_atomic, join_path}
use uncut_core.Acme.{Manager, Lego, AcmeError}
use uncut_core.Acme.Issue.{issue}
use uncut_core.Updater.{volume_bin, Download, UpdateError, install}
use uncut_core.Setup.{Options, certs_dir}
use uncut_core.Setup.Rebuild.{Node}
use uncut_core.Nodeops.{NodeError, domain_required, Context, loaded_settings, reloaded, save}

pub data FileError : Type 0 where
  command_failed : NodeError → FileError
  not_issued : AcmeError → FileError
  not_a_pair not_covered : Text → FileError
  no_certs_directory : FileError
  certificate_not_stored key_not_stored : DiskOp → FileError
  not_installed : UpdateError → FileError
  not_backed_up : Text → FileError
  not_restored : DbError → FileError

abbrev pub commanded : Result NodeError (Unit {0}) → Result FileError (Unit {0})
commanded (ok _) = ok tt
commanded (err e) = err (command_failed e)

-- A command on the store alone.
abbrev pub on_store : Exec Store NodeError (Unit {0}) → Exec Node FileError (Unit {0})
on_store f n = let r = f n.store in (commanded r.0, record n { store = r.1 })

abbrev pub settings_result : Result NodeError Settings → Result FileError Settings
settings_result (ok s) = ok s
settings_result (err e) = err (command_failed e)

abbrev pub node_settings : Context → Exec Node FileError Settings
node_settings k n =
    let r = loaded_settings k n.store in (settings_result r.0, record n { store = r.1 })

abbrev wrapped {ℓ} :
    {E : Type ℓ} → (E → FileError) → Result E (Unit {0}) → Result FileError (Unit {0})
wrapped wrong (ok _) = ok tt
wrapped wrong (err e) = err (wrong e)

abbrev pub on_disk {ℓ} :
    {E : Type ℓ}
    → (E → FileError)
    → (Disk → Result E (Unit {0}) × Disk)
    → Exec Node FileError (Unit {0})
on_disk wrong f n = let r = f n.disk in (wrapped wrong r.0, record n { disk = r.1 })

-- `acme.New` as the commands call it.
unfoldable pub manager_of : Options → Text → Settings → Manager
manager_of opts domain s = record {
  domain = domain;
  email = s.email;
  certs_dir = certs_dir opts;
  web_root = opts.web_root;
}

abbrev pub directory_made : Text → Exec Node FileError (Unit {0})
directory_made dir n =
    if n.disk.broken (make_dir dir) then (err no_certs_directory, n) else (ok tt, n)

module _ (k : Context) where
  -- The daemon finds the files as the command has left them.
  unfoldable pub node_reloaded : Exec Node FileError (Unit {0})
  node_reloaded n = on_store (reloaded (record k { disk = n.disk })) n

  module _ (lego : Lego) where
    unfoldable pub renew_cert : Exec Node FileError (Unit {0})
    renew_cert = do
      settings ← node_settings k
      on_disk not_issued (issue lego (manager_of k.options settings.domain settings))
      node_reloaded

    -- A certificate that is not issued stops nothing.
    abbrev pub asked_for : Manager → Exec Node FileError (Unit {0})
    asked_for m n = (ok tt, record n { disk = (issue lego m n.disk).1 })

    abbrev pub move_to : Text → Exec Node FileError (Unit {0})
    move_to new = do
      settings ← node_settings k
      on_store (save (codes "domain") new)
      asked_for (manager_of k.options new settings)
      node_reloaded

    unfoldable pub change_node_domain : Text → Exec Node FileError (Unit {0})
    change_node_domain domain n =
        if is_blank (trim_space (to_lower domain))
        then (err (command_failed domain_required), n)
        else move_to (trim_space (to_lower domain)) n

  abbrev pub put_pair : Text → Text → Text → Exec Node FileError (Unit {0})
  put_pair domain cert key = do
    on_disk certificate_not_stored
        (write_file_atomic (join_path (certs_dir k.options) (domain ++ codes ".crt")) cert 420)
    on_disk key_not_stored
        (write_file_atomic (join_path (certs_dir k.options) (domain ++ codes ".key")) key 384)

  -- `tls.X509KeyPair`, which gives the leaf or an error, and `VerifyHostname` of a leaf.
  module _ (pair : Text → Text → Result Text Text) (covers : Text → Text → Option Text) where
    abbrev pub leaf_of : Result Text Text → Result FileError Text
    leaf_of (ok leaf) = ok leaf
    leaf_of (err e) = err (not_a_pair e)

    abbrev pub covered : Option Text → Result FileError (Unit {0})
    covered none = ok tt
    covered (some e) = err (not_covered e)

    -- The domain that the certificate is for.
    unfoldable pub set_cert : Text → Text → Exec Node FileError Text
    set_cert cert key = do
      settings ← node_settings k
      leaf ← lift (leaf_of (pair cert key))
      lift (covered (covers leaf settings.domain))
      directory_made (certs_dir k.options)
      put_pair settings.domain cert key
      node_reloaded
      pure settings.domain

  -- The reload of this command names sing-box for a restart.
  unfoldable pub switch_singbox : (Option File → Bool) → Download → Exec Node FileError (Unit {0})
  switch_singbox runs download = do
    on_disk not_installed (
        install runs (volume_bin k.options.install_dir) (k.options.install_dir ++ codes "/bin")
          download)
    node_reloaded

  -- `VACUUM INTO` is the engine's.
  unfoldable pub backup_path : Text → Text
  backup_path stamp = join_path k.options.data_dir (codes "backup_" ++ (stamp ++ codes ".db"))

  unfoldable pub export_backup :
      (Text → Store → Disk → Result Text (Unit {0}) × Disk) → Text → Exec Node FileError Text
  export_backup vacuum stamp = do
    λ n. on_disk not_backed_up (vacuum (backup_path stamp) n.store) n
    pure (backup_path stamp)

  -- `b` is what the file holds, staged and migrated.
  unfoldable pub import_backup : Result DbError Store → Exec Node FileError (Unit {0})
  import_backup b = do
    λ n. (wrapped not_restored (restore b n.store).0, record n { store = (restore b n.store).1 })
    node_reloaded
