-- ===== src/Core/Subscriptions/Files.antt =====
-- internal/core/subscriptions.go: RegenerateAllSubscriptions.
pub mod Sweep
pub mod Outside
use uncut_core.Base.{if◌then◌else◌, contains, Result, ok, err, Exec, List, [], ◌∷◌, map}
use uncut_core.Text.{Text, text_eq}
use uncut_core.Config.{Client}
use uncut_core.Store.{DbError, Store, get_clients}
use uncut_core.Files.{
  DiskOp, make_dir, read_dir, Disk, write_file_atomic, join_path, names_in, remove_file,
}

pub data RegenerateError : Type 0 where
  no_subscription_dir subscription_dir_unread : RegenerateError
  clients_unread : DbError → RegenerateError
  subscription_unwritten : Text → DiskOp → RegenerateError

abbrev pub next_file :
    Text
    → Result DiskOp (Unit {0}) × Disk
    → Exec Disk RegenerateError (Unit {0})
    → Result RegenerateError (Unit {0}) × Disk
next_file name (err e, d) next = (err (subscription_unwritten name e), d)
next_file name (ok _, d) next = next d

-- One file for each client; `payload` is what `GenerateSubscriptionPayload` gives it.
unfoldable pub write_subscriptions :
    (Client → Text) → Text → List Client → Exec Disk RegenerateError (Unit {0})
unfolding write_file_atomic join_path
write_subscriptions payload dir [] d = (ok tt, d)
write_subscriptions payload dir (c ∷ cs) d =
    next_file c.name (write_file_atomic (join_path dir c.sub_hash) (payload c) 420 d)
      (write_subscriptions payload dir cs)

unfoldable pub sub_hashes : List Client → List Text
sub_hashes cs = map (λ (c : Client). c.sub_hash) cs

-- The names of the directory that no client keeps are removed.
unfoldable pub sweep : Text → List Text → List Text → Disk → Disk
unfolding remove_file join_path
sweep dir keep [] d = d
sweep dir keep (name ∷ names) d =
    sweep dir keep names (if contains keep name then d else remove_file (join_path dir name) d)

abbrev pub swept :
    Text
    → List Client
    → Result RegenerateError (Unit {0}) × Disk
    → Result RegenerateError (Unit {0}) × Disk
swept dir cs (err e, d) = (err e, d)
swept dir cs (ok _, d) =
    if d.broken (read_dir dir)
    then (err subscription_dir_unread, d)
    else (ok tt, sweep dir (sub_hashes cs) (names_in dir d.files) d)

abbrev pub with_clients :
    (Client → Text) → Text → Result DbError (List Client) → Exec Disk RegenerateError (Unit {0})
with_clients payload dir (err e) d = (err (clients_unread e), d)
with_clients payload dir (ok cs) d = swept dir cs (write_subscriptions payload dir cs d)

unfoldable pub regenerate_all_subscriptions :
    (Client → Text) → Text → Store → Exec Disk RegenerateError (Unit {0})
unfolding write_subscriptions sweep sub_hashes names_in
regenerate_all_subscriptions payload dir store d =
    if d.broken (make_dir dir)
    then (err no_subscription_dir, d)
    else with_clients payload dir (get_clients store) d
