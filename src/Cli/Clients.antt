-- ===== src/Cli/Clients.antt =====
-- cmd/uncut/main.go: the commands on one client, and the list.
use uncut_core.Base.{
  if◌then◌else◌, Result, ok, err, Exec, lift, ◌>>=◌, ◌>>◌, Bool, not, List, [], ◌∷◌, ◌++◌,
}
use uncut_core.Text.{Text, codes}
use uncut_core.Text.Split.{join}
use uncut_core.Nodeops.Clients.{
  ClientView, rotate_sub, set_client_protocols, inherit_protocols, delete_client,
  add_client_command,
}
use uncut_core.Store.{Store}
use uncut_core.Config.Protocols.{is_empty}
use uncut_core.Nodeops.{NodeError}
use uncut_core.Nodeops.Reports.{list_clients}
use uncut_core.Cli.{
  Call, CliError, protocols_or_inherit, Printed, line, client_json, list_json, Terminal, World, cat,
  say, stored_command, client_name,
}

module _ (w : World) (c : Call) where
  abbrev added_lines : ClientView → List Printed
  added_lines v =
      if c.as_json
      then client_json v ∷ []
      else line (cat (codes "Client " ∷ v.name ∷ codes " added." ∷ []))
        ∷ line (codes "UUID: " ++ v.uuid)
        ∷ line (codes "Subscription: " ++ v.subscription)
        ∷ []

  unfoldable pub add_client_cmd : Exec Terminal CliError (Unit {0})
  add_client_cmd = do
    name ← lift (client_name c)
    view ← stored_command (add_client_command w.context w.x25519 name c.protocols w.draw)
    say (added_lines view)

  unfoldable pub rotate_sub_cmd : Exec Terminal CliError (Unit {0})
  rotate_sub_cmd = do
    name ← lift (client_name c)
    view ← stored_command (rotate_sub w.context name w.token w.now)
    say (
        line (cat (codes "Subscription rotated for " ∷ view.name ∷ codes "." ∷ []))
        ∷ line (codes "New URL: " ++ view.subscription)
        ∷ line (codes "Old URL no longer works.")
        ∷ [])

  unfoldable pub del_client_cmd : Exec Terminal CliError (Unit {0})
  del_client_cmd = do
    name ← lift (client_name c)
    stored_command (delete_client w.context name)
    say (line (cat (codes "Client " ∷ name ∷ codes " removed." ∷ [])) ∷ [])

  abbrev listed_protocols : ClientView → Text
  listed_protocols v =
      if v.protocols_explicit then join (codes ", ") v.protocols else codes "inherit server set"

  unfoldable pub listed : List ClientView → List Printed
  listed [] = []
  listed (v ∷ vs) =
      line (codes "• " ++ v.name)
      ∷ line (codes "  UUID: " ++ v.uuid)
      ∷ line (codes "  Protocols: " ++ listed_protocols v)
      ∷ line (codes "  Subscription: " ++ v.subscription)
      ∷ listed vs

  unfoldable pub list_clients_cmd : Exec Terminal CliError (Unit {0})
  list_clients_cmd = do
    found ← stored_command (list_clients w.context)
    say (
        if c.as_json
        then list_json found ∷ []
        else line (codes "Active Clients:") ∷ listed found.clients)

  abbrev protocols_given : Bool
  protocols_given = not (is_empty c.protocols)

  abbrev pub client_set : Text → Exec Store NodeError ClientView
  client_set name =
      if c.inherit
      then inherit_protocols w.context name w.now
      else set_client_protocols w.context name c.protocols w.now

  abbrev set_lines : Text → ClientView → List Printed
  set_lines name v =
      if c.as_json
      then client_json v ∷ []
      else if c.inherit
      then line (cat (codes "Client " ∷ name ∷ codes " inherits the server protocol set" ∷ [])) ∷ []
      else line
          (cat (codes "Client " ∷ name ∷ codes " allowlist: " ∷ join (codes ", ") c.protocols ∷ []))
        ∷ []

  -- One of the two flags, and not both.
  abbrev pub one_of_two : Result CliError (Unit {0})
  one_of_two =
      if (if c.inherit then protocols_given else not protocols_given)
      then err protocols_or_inherit
      else ok tt

  unfoldable pub set_client_protocols_cmd : Exec Terminal CliError (Unit {0})
  set_client_protocols_cmd = do
    name ← lift (client_name c)
    lift one_of_two
    view ← stored_command (client_set name)
    say (set_lines name view)
