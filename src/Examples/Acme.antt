-- ===== src/Examples/Acme.antt =====
-- The certificate and the binary at concrete inputs.
use uncut_core.Base.{
  ◌==◌, ok, err, lookup, insert, erase, ◌≡◌, refl, Bool, true, false, none, some, [], ◌∷◌,
}
use uncut_core.Text.{codes, Text-discrete, text_eq}
use uncut_core.Files.{
  DiskOp, read, rename_temp, Disk, abandoned, write_file_atomic, content, read_file, join_path,
  remove_file,
}
use uncut_core.Files.Moves.{stats, rename_file}
use uncut_core.Acme.{
  Manager, Certificate, Lego, key_not_written, cert_path, key_path, account_key_path, sub_time,
  quotient, longer, is_current, certificate, valid, account_key, account_email, registration,
  obtained,
}
use uncut_core.Acme.Issue.{
  put_certificate, put_key, issue, ensure, Round, round_result, first_backoff, doubled, maintain,
}
use uncut_core.Acme.Ensure.{EnsureCases, ensure_lem, ensure_after_key_failure}
use uncut_core.Acme.Waits.{waits, outcomes, delays, maintain-waits}
use uncut_core.Updater.{
  entry, Download, archive, tmp_of, bak_of, has_suffix, is_binary, unpack_binary, unpack, set_aside,
  bring_back, swap, install,
}
use uncut_core.Updater.Install.{InstallCases, install_lem}

abbrev a_manager : Manager
a_manager = record {
  domain = codes "n.io";
  email = [];
  certs_dir = codes "/c";
  web_root = codes "/w";
}

abbrev a_certificate : Certificate
a_certificate = record { not_before = 100; not_after = 400 }

-- An authority whose every certificate runs from 100 to 400.
abbrev pub a_lego : Lego
a_lego = record {
  parse_certificate = λ _. some a_certificate;
  parse_key = λ text. some text;
  new_key = some (codes "K");
  key_pem = λ key. some key;
  new_client = λ email key. none;
  new_provider = λ root. none;
  set_provider = λ root. none;
  resolve_account = λ key. none;
  register = λ key email. ok (codes "R");
  obtain = λ reg domain. ok (record { certificate = codes "C"; private_key = codes "P" });
}

-- An empty disk on which the key cannot be put in place.
abbrev no_key_disk : Disk
no_key_disk = record { files = []; temps = []; broken = λ op. fails_at op }
  where
    fails_at : DiskOp → Bool
    fails_at (rename_temp path) = path == codes "/c/n.io.key"
    fails_at op = false

own_key_file : (account_key_path a_manager == key_path a_manager) ≡ false
unfolding account_key_path key_path join_path Text-discrete
own_key_file = refl

ensure_lem_example :
    EnsureCases a_lego a_manager 150 no_key_disk (ensure a_lego a_manager 150 no_key_disk)
ensure_lem_example = ensure_lem a_lego a_manager 150 no_key_disk own_key_file

key_fails :
    (ensure a_lego a_manager 150 no_key_disk).0
    ≡ err (key_not_written (rename_temp (codes "/c/n.io.key")))
unfolding ensure valid certificate read_file issue account_key obtained registration put_certificate
    put_key write_file_atomic abandoned content lookup insert Text-discrete cert_path key_path
    account_key_path join_path is_current account_email
key_fails = refl

cert_reads : (ensure a_lego a_manager 150 no_key_disk).1.broken (read (cert_path a_manager)) ≡ false
unfolding ensure valid certificate read_file issue account_key obtained registration put_certificate
    put_key write_file_atomic abandoned content lookup insert Text-discrete cert_path key_path
    account_key_path join_path is_current account_email
cert_reads = refl

current_later : is_current 200 a_certificate ≡ true
unfolding is_current sub_time quotient longer
current_later = refl

ensure_after_key_failure_example :
    (content (key_path a_manager) (ensure a_lego a_manager 150 no_key_disk).1
      ≡ content (key_path a_manager) no_key_disk)
    × (ensure a_lego a_manager 200 (ensure a_lego a_manager 150 no_key_disk).1
        ≡ (ok false, (ensure a_lego a_manager 150 no_key_disk).1))
ensure_after_key_failure_example =
    ensure_after_key_failure a_lego a_manager 150 no_key_disk 200
      (rename_temp (codes "/c/n.io.key")) own_key_file
      (λ got key o. (a_certificate, refl, current_later)) key_fails cert_reads

abbrev a_round : Round
a_round = record { manager = none; now = 150; lego = a_lego; meanwhile = λ d. d }

maintain-waits_example :
    waits (maintain (a_round ∷ a_round ∷ []) first_backoff no_key_disk).0
    ≡ delays 0 (outcomes (maintain (a_round ∷ a_round ∷ []) first_backoff no_key_disk).0)
maintain-waits_example = maintain-waits (a_round ∷ a_round ∷ []) no_key_disk

-- Two failures in a row.
two_waits : waits (maintain (a_round ∷ a_round ∷ []) first_backoff no_key_disk).0 ≡ 5 ∷ 10 ∷ []
unfolding maintain round_result doubled
two_waits = refl

abbrev an_archive : Download
an_archive =
    archive (entry (codes "x/README") [] true ∷ entry (codes "x/sing-box") (codes "new") true ∷ [])

abbrev old_binary : Disk
old_binary = record {
  files = (codes "/b/sing-box", record { bytes = codes "old"; perm = 493 }) ∷ [];
  temps = [];
  broken = λ _. false;
}

no_backup : lookup (bak_of (codes "/b/sing-box")) old_binary.files ≡ none
unfolding lookup bak_of Text-discrete
no_backup = refl

install_lem_example :
    InstallCases
      (λ f. true)
      (codes "/b/sing-box")
      (codes "/b")
      old_binary
      an_archive
      (install (λ f. true) (codes "/b/sing-box") (codes "/b") an_archive old_binary)
install_lem_example =
    install_lem (λ f. true) (codes "/b/sing-box") (codes "/b") old_binary an_archive no_backup

-- The new binary is in place, and nothing else is left.
installed : install (λ f. true) (codes "/b/sing-box") (codes "/b") an_archive old_binary ≡ (
  ok tt,
  record old_binary {
    files = (codes "/b/sing-box", record { bytes = codes "new"; perm = 493 }) ∷ [];
  },
)
unfolding install unpack unpack_binary is_binary has_suffix swap set_aside stats rename_file
    bring_back remove_file lookup insert erase tmp_of bak_of Text-discrete
installed = refl
