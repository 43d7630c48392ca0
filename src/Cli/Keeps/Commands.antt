-- ===== src/Cli/Keeps/Commands.antt =====
-- cmd/uncut/main.go: the commands without a gate keep the other settings.
use uncut_core.Base.{
  Bool-cases, Exec, pure, lift, reads, ◌>>=◌, ◌>>◌, ℕ, ◌≡◌, inl, inr, true, false, List, [],
}
use uncut_core.Text.{Text, is_blank}
use uncut_core.Config.{Client, Settings}
use uncut_core.Core.{CoreError, wrap}
use uncut_core.Core.Clients.{
  save_client, add_client_named, update_client_protocols, inherit_client_protocols,
}
use uncut_core.Core.Clients.Prepare.{cleaned}
use uncut_core.Nodeops.Clients.{
  new_client_view, find_client, client_view_after, cleaned_names, set_client_protocols,
  inherit_protocols, add_client_command,
}
use uncut_core.Store.{Store, get_clients, get_client_by_uuid}
use uncut_core.Setup.Bootstrap.Keeps.{Keeps, bind-Keeps}
use uncut_core.Setup.Bootstrap.Steps.{add_client-Keeps, add_client_named-Keeps}
use uncut_core.Nodeops.{Context, from_core, from_db, loaded_settings, reloaded}
use uncut_core.Nodeops.Reports.{list_clients}
use uncut_core.Cli.{Call, World, client_name}
use uncut_core.Cli.Clients.{
  add_client_cmd, list_clients_cmd, client_set, one_of_two, set_client_protocols_cmd,
}
use uncut_core.Cli.Keeps.{
  KeepsTerminal, command-say, lift-then, from_core-Keeps, reloaded-Keeps, reloaded-pure-Keeps,
  loaded_settings-Keeps,
}
use uncut_core.Config.Protocols.{clean_protocols}

module _ (key v : Text) where
  save_client-Keeps : (now : ℕ) (c : Client) → Keeps key v (save_client now c)
  unfolding save_client
  save_client-Keeps now c = add_client-Keeps key v now c

  update_client_protocols-Keeps :
      (uuid : Text) (protocols : List Text) (now : ℕ)
      → Keeps key v (update_client_protocols uuid protocols now)
  unfolding update_client_protocols
  update_client_protocols-Keeps uuid protocols now =
      bind-Keeps key v (lift (cleaned protocols)) _ (λ s h. h)
        (λ protos.
          bind-Keeps key v (reads (λ s. wrap (get_client_by_uuid uuid s))) _ (λ s h. h)
            (λ c.
              save_client-Keeps now (record c { protocols = protos; protocols_explicit = true })))

  inherit_client_protocols-Keeps :
      (uuid : Text) (now : ℕ) → Keeps key v (inherit_client_protocols uuid now)
  unfolding inherit_client_protocols
  inherit_client_protocols-Keeps uuid now =
      bind-Keeps key v (reads (λ s. wrap (get_client_by_uuid uuid s))) _ (λ s h. h)
        (λ c. save_client-Keeps now (record c { protocols = []; protocols_explicit = false }))

  module _ (w : World) (c : Call) (b : is_blank v ≡ false) where
    abbrev k : Context
    k = w.context

    client_view_after-Keeps : (uuid : Text) → Keeps key v (client_view_after k uuid)
    unfolding client_view_after
    client_view_after-Keeps uuid =
        bind-Keeps key v (reads (λ s. from_db (get_client_by_uuid uuid s))) _ (λ s h. h)
          (λ found.
            bind-Keeps key v (loaded_settings k) _ (loaded_settings-Keeps key v k b)
              (λ settings s h. h))

    -- What follows the write of a client.
    viewed-Keeps : (uuid : Text) → Keeps key v (reloaded k >> client_view_after k uuid)
    viewed-Keeps uuid =
        bind-Keeps key v (reloaded k) (λ _. client_view_after k uuid) (reloaded-Keeps key v k)
          (λ _. client_view_after-Keeps uuid)

    added-Keeps :
        (name : Text) (s : Settings)
        → Keeps key v (do
          client ← λ s'. from_core (add_client_named w.x25519 name c.protocols w.draw s')
          reloaded k
          pure (new_client_view client s.domain s.transport))
    added-Keeps name s =
        bind-Keeps key v (λ s'. from_core (add_client_named w.x25519 name c.protocols w.draw s')) _
          (from_core-Keeps key v (add_client_named w.x25519 name c.protocols w.draw)
            (add_client_named-Keeps key v w.x25519 name c.protocols w.draw))
          (λ client. reloaded-pure-Keeps key v k (new_client_view client s.domain s.transport))

    add_client_command-Keeps :
        (name : Text) → Keeps key v (add_client_command k w.x25519 name c.protocols w.draw)
    unfolding add_client_command
    add_client_command-Keeps name s h = elim (Bool-cases (is_blank name)) [
      | inl e ↦ rw e h
      | inr e ↦ rw e (
          bind-Keeps key v (loaded_settings k) _ (loaded_settings-Keeps key v k b)
            (added-Keeps name) s h)
    ]

    pub add-Keeps : KeepsTerminal key v (add_client_cmd w c)
    unfolding add_client_cmd
    add-Keeps = lift-then key v (client_name c) _ (λ name.
        command-say key v (add_client_command k w.x25519 name c.protocols w.draw) _
          (add_client_command-Keeps name))

    pub list-Keeps : KeepsTerminal key v (list_clients_cmd w c)
    unfolding list_clients_cmd list_clients
    list-Keeps = command-say key v (list_clients k) _ (
        bind-Keeps key v (loaded_settings k) _ (loaded_settings-Keeps key v k b)
          (λ s. bind-Keeps key v (reads (λ s. from_db (get_clients s))) _ (λ s h. h) (λ cs s h. h)))

    -- The lookup of the client, its write, and what follows.
    client_written-Keeps :
        (name : Text) (f : Client → Exec Store CoreError Client)
        → ((found : Client) → Keeps key v (f found))
        → Keeps key v (do
          found ← reads (find_client name)
          updated ← λ s. from_core (f found s)
          reloaded k
          client_view_after k found.uuid)
    client_written-Keeps name f kf =
        bind-Keeps key v (reads (find_client name)) _ (λ s h. h)
          (λ found.
            bind-Keeps key v (λ s. from_core (f found s)) _
              (from_core-Keeps key v (f found) (kf found)) (λ updated. viewed-Keeps found.uuid))

    set_client-Keeps : (name : Text) → Keeps key v (set_client_protocols k name c.protocols w.now)
    unfolding set_client_protocols
    set_client-Keeps name =
        bind-Keeps key v (lift (cleaned_names k (clean_protocols c.protocols))) _ (λ s h. h)
          (λ protos.
            client_written-Keeps name (λ found. update_client_protocols found.uuid protos w.now)
              (λ found. update_client_protocols-Keeps found.uuid protos w.now))

    inherit-Keeps : (name : Text) → Keeps key v (inherit_protocols k name w.now)
    unfolding inherit_protocols
    inherit-Keeps name =
        client_written-Keeps name (λ found. inherit_client_protocols found.uuid w.now)
          (λ found. inherit_client_protocols-Keeps found.uuid w.now)

    client_set-Keeps : (name : Text) → Keeps key v (client_set w c name)
    client_set-Keeps name = elim (Bool-cases c.inherit) [
      | inl e ↦ rw e (inherit-Keeps name)
      | inr e ↦ rw e (set_client-Keeps name)
    ]

    pub set_client_protocols-Keeps : KeepsTerminal key v (set_client_protocols_cmd w c)
    unfolding set_client_protocols_cmd
    set_client_protocols-Keeps = lift-then key v (client_name c) _ (λ name.
        lift-then key v (one_of_two w c) _
          (λ _. command-say key v (client_set w c name) _ (client_set-Keeps name)))
