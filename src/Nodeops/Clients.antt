-- ===== src/Nodeops/Clients.antt =====
-- internal/nodeops/nodeops.go: the commands on one client.
use uncut_core.Base.{
  if◌then◌else◌, ◌==◌, Result, ok, err, Exec, pure, lift, reads, ◌>>=◌, ◌>>◌, ℕ, Bool, ◌||◌, Option,
  List, [], ◌∷◌,
}
use uncut_core.Text.{Text, text_eq, is_blank}
use uncut_core.Text.Encode.{Bytes}
use uncut_core.Config.{Client}
use uncut_core.Config.Protocols.{clean_protocols}
use uncut_core.Transport.{Transport, sub_url}
use uncut_core.Store.{Store, get_clients, get_client_by_uuid}
use uncut_core.Core.{Draw}
use uncut_core.Core.Clients.{
  add_client_named, rotate_client_sub, delete_client_by_uuid, update_client_protocols,
  inherit_client_protocols,
}
use uncut_core.Nodeops.{
  NodeError, name_required, client_not_found, protocol_required, bad_protocol, db_failed, Context,
  from_core, from_db, loaded_settings, reloaded,
}

pub record ClientView : Type 0 where
  pub name : Text
  pub uuid : Text
  pub sub_hash : Text
  pub subscription : Text
  pub protocols : List Text
  pub protocols_explicit : Bool

unfoldable pub new_client_view : Client → Text → Transport → ClientView
unfolding sub_url
new_client_view c domain t = record {
  name = c.name;
  uuid = c.uuid;
  sub_hash = c.sub_hash;
  subscription = sub_url t domain c.sub_hash;
  protocols = c.protocols;
  protocols_explicit = c.protocols_explicit;
}

-- The first client of that name or uuid.
unfoldable pub find_named : Text → List Client → Result NodeError Client
find_named name [] = err client_not_found
find_named name (c ∷ cs) =
    let rest = find_named name cs in if c.name == name || c.uuid == name then ok c else rest

unfoldable pub find_client : Text → Store → Result NodeError Client
unfolding find_named
find_client name s = elim (get_clients s) [ err e ↦ err (db_failed e) | ok cs ↦ find_named name cs ]

module _ (k : Context) where
  unfoldable pub client_view_after : Text → Exec Store NodeError ClientView
  unfolding loaded_settings new_client_view
  client_view_after uuid = do
    c ← reads (λ s. from_db (get_client_by_uuid uuid s))
    settings ← loaded_settings k
    pure (new_client_view c settings.domain settings.transport)

  unfoldable pub rotate_sub : Text → Bytes → ℕ → Exec Store NodeError ClientView
  unfolding find_client loaded_settings rotate_client_sub reloaded new_client_view
  rotate_sub name bytes now = do
    old ← reads (find_client name)
    settings ← loaded_settings k
    c ← λ s. from_core (rotate_client_sub old.uuid bytes now s)
    reloaded k
    pure (new_client_view c settings.domain settings.transport)

  abbrev pub cleaned_names : Result Text (List Text) → Result NodeError (List Text)
  cleaned_names (err p) = err (bad_protocol p)
  cleaned_names (ok []) = err protocol_required
  cleaned_names (ok (p ∷ ps)) = ok (p ∷ ps)

  unfoldable pub set_client_protocols : Text → List Text → ℕ → Exec Store NodeError ClientView
  unfolding clean_protocols find_client update_client_protocols reloaded client_view_after
  set_client_protocols name protocols now = do
    sanitized ← lift (cleaned_names (clean_protocols protocols))
    c ← reads (find_client name)
    updated ← λ s. from_core (update_client_protocols c.uuid sanitized now s)
    reloaded k
    client_view_after c.uuid

  unfoldable pub inherit_protocols : Text → ℕ → Exec Store NodeError ClientView
  unfolding find_client inherit_client_protocols reloaded client_view_after
  inherit_protocols name now = do
    c ← reads (find_client name)
    updated ← λ s. from_core (inherit_client_protocols c.uuid now s)
    reloaded k
    client_view_after c.uuid

  unfoldable pub delete_client : Text → Exec Store NodeError (Unit {0})
  unfolding find_client delete_client_by_uuid reloaded
  delete_client name s =
      let run : Exec Store NodeError (Unit {0}) = do
        c ← reads (find_client name)
        λ s'. from_core (delete_client_by_uuid c.uuid s')
        reloaded k
      in if is_blank name then (err name_required, s) else run s

  module _ (x25519 : Bytes → Option Bytes) where
    unfoldable pub add_client_command : Text → List Text → Draw → Exec Store NodeError ClientView
    unfolding loaded_settings add_client_named reloaded new_client_view
    add_client_command name protocols d s =
        let run : Exec Store NodeError ClientView = do
          settings ← loaded_settings k
          c ← λ s'. from_core (add_client_named x25519 name protocols d s')
          reloaded k
          pure (new_client_view c settings.domain settings.transport)
        in if is_blank name then (err name_required, s) else run s
