-- ===== src/Core/Clients.antt =====
-- internal/core/clients.go: the client operations on the store.
pub mod Prepare
pub mod Laws
pub mod Roster
pub mod Steps
use uncut_core.Base.{
  Result, ok, err, Exec, lift, reads, ◌>>=◌, ◌>>◌, ℕ, true, false, Option, List, [],
}
use uncut_core.Text.{Text}
use uncut_core.Text.Encode.{Bytes, hex_encode}
use uncut_core.Config.{Client}
use uncut_core.Store.{DbError, Store, get_client_by_uuid, add_client, delete_client_row}
use uncut_core.Core.{CoreError, db_failure, wrap, wrapped, Draw}
use uncut_core.Core.Clients.Prepare.{cleaned, prepare}

abbrev pub saved : Client → Result DbError (Unit {0}) → Result CoreError Client
saved c (ok _) = ok c
saved c (err e) = err (db_failure e)

-- The write, which returns the client.
unfoldable pub save_client : ℕ → Client → Exec Store CoreError Client
save_client now c s = (saved c (add_client now c s).0, (add_client now c s).1)

module _ (x25519 : Bytes → Option Bytes) where
  -- `AddClient`: all that it reads, and one write.
  unfoldable pub add_client_named : Text → List Text → Draw → Exec Store CoreError Client
  unfolding prepare save_client
  add_client_named name protocols d = do
    c ← reads (prepare x25519 name protocols d)
    save_client d.now c

unfoldable pub rotate_client_sub : Text → Bytes → ℕ → Exec Store CoreError Client
unfolding save_client
rotate_client_sub uuid bytes now = do
  c ← reads (λ s. wrap (get_client_by_uuid uuid s))
  save_client now (record c { sub_hash = hex_encode bytes })

unfoldable pub delete_client_by_uuid : Text → Exec Store CoreError (Unit {0})
delete_client_by_uuid uuid = do
  c ← reads (λ s. wrap (get_client_by_uuid uuid s))
  λ s. wrapped (delete_client_row uuid s)

unfoldable pub update_client_protocols : Text → List Text → ℕ → Exec Store CoreError Client
unfolding cleaned save_client
update_client_protocols uuid protocols now = do
  protos ← lift (cleaned protocols)
  c ← reads (λ s. wrap (get_client_by_uuid uuid s))
  save_client now (record c { protocols = protos; protocols_explicit = true })

unfoldable pub inherit_client_protocols : Text → ℕ → Exec Store CoreError Client
unfolding save_client
inherit_client_protocols uuid now = do
  c ← reads (λ s. wrap (get_client_by_uuid uuid s))
  save_client now (record c { protocols = []; protocols_explicit = false })
