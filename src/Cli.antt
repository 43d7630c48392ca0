-- ===== src/Cli.antt =====
-- cmd/uncut/main.go: what a command of the binary is given, and what it leaves.
--
-- The flags are those that cobra has parsed. The two commands that run until they are stopped, the
-- daemon and the menu, and the bare root command, which opens the menu, are not among the verbs.
pub mod Clients
pub mod Server
pub mod Reports
pub mod Run
pub mod Keeps
use uncut_core.Base.{if◌then◌else◌, Result, ok, err, Exec, ℕ, Bool, Option, List, [], ◌∷◌, ◌++◌}
use uncut_core.Text.{Text, is_blank}
use uncut_core.Text.Encode.{Bytes}
use uncut_core.Text.Decimal.{ℤ}
use uncut_core.Transport.{RandomPaths}
use uncut_core.Store.{Store}
use uncut_core.Core.{Draw}
use uncut_core.Files.{File}
use uncut_core.Acme.{Lego}
use uncut_core.Updater.{Download, UpdateError}
use uncut_core.Setup.Rebuild.{Node}
use uncut_core.Nodeops.{NodeError, Context}
use uncut_core.Nodeops.Clients.{ClientView}
use uncut_core.Nodeops.Reports.{ClientList, Info}
use uncut_core.Nodeops.Certificates.{FileError}
use uncut_core.Nodeops.Doctor.{Check}
use uncut_core.Nodeops.Doctor.Report.{Host}

pub data Verb : Type 0 where
  version_verb singbox_version_verb add_verb del_verb list_verb sync_ip_verb : Verb
  renew_cert_verb change_domain_verb info_verb doctor_verb rotate_paths_verb : Verb
  rotate_sub_verb set_protocols_verb set_client_protocols_verb set_mtproto_tls_verb : Verb
  set_sni_verb set_cert_verb hysteria2_bandwidth_verb set_awg_port_verb : Verb

-- The arguments and the flags of a call; a flag that is not given has its default. `port` is none
-- where --port is not given.
pub record Call : Type 0 where
  pub args : List Text
  pub yes : Bool
  pub as_json : Bool
  pub inherit : Bool
  pub name : Text
  pub force_ip : Text
  pub domain : Text
  pub host : Text
  pub cert_base64 : Text
  pub key_base64 : Text
  pub protocols : List Text
  pub port : Option ℤ

pub data CliError : Type 0 where
  wrong_arguments store_not_opened : CliError
  needs_yes : Text → CliError
  name_missing protocols_missing protocols_or_inherit host_missing : CliError
  up_not_a_number down_not_a_number port_not_a_number port_twice port_missing : CliError
  certificate_missing certificate_not_decoded key_not_decoded : CliError
  checks_failed : ℕ → ℕ → CliError
  node_failed : NodeError → CliError
  file_failed : FileError → CliError
  install_failed : UpdateError → CliError

-- A line of output, or a value that is printed as JSON.
pub data Printed : Type 0 where
  line : Text → Printed
  client_json : ClientView → Printed
  list_json : ClientList → Printed
  checks_json : List Check → Printed
  info_json : Info → Printed
  protocols_json : List Text → Printed

-- What a command works on: the node, and what it has printed so far.
pub record Terminal : Type 0 where
  pub node : Node
  pub printed : List Printed

-- What the commands have from their surroundings, the random values and the answers of the network
-- among them.
pub record World : Type 0 where
  pub context : Context
  pub version : Text
  pub error_text : NodeError → Text
  pub opened : Store → Option Store
  pub sha256 : Bytes → Bytes
  pub hmac_sha256 : Bytes → Bytes → Bytes
  pub x25519 : Bytes → Option Bytes
  pub draw : Draw
  pub token : Bytes
  pub now : ℕ
  pub new_paths : RandomPaths
  pub answer : Text → Option Text
  pub is_ipv4 : Text → Bool
  pub lego : Lego
  pub pair : Text → Text → Result Text Text
  pub covers : Text → Text → Option Text
  pub download : Text → Download
  pub runs : Option File → Bool
  pub version_output : Option Text
  pub format_time : ℕ → Text
  pub host : Host

abbrev pub cat : List Text → Text
cat [] = []
cat (t ∷ ts) = t ++ cat ts

unfoldable pub say : List Printed → Exec Terminal CliError (Unit {0})
say ps t = (ok tt, record t { printed = t.printed ++ ps })

module _ {A : Type 0} where
  abbrev pub node_result : Result NodeError A → Result CliError A
  node_result (ok a) = ok a
  node_result (err e) = err (node_failed e)

  -- A command of internal/nodeops on the store.
  abbrev pub stored_command : Exec Store NodeError A → Exec Terminal CliError A
  stored_command f t =
      let r = f t.node.store in (node_result r.0, record t { node = record t.node { store = r.1 } })

  abbrev pub file_result : Result FileError A → Result CliError A
  file_result (ok a) = ok a
  file_result (err e) = err (file_failed e)

  -- One on the store and the files.
  abbrev pub filed_command : Exec Node FileError A → Exec Terminal CliError A
  filed_command f t = let r = f t.node in (file_result r.0, record t { node = r.1 })

abbrev pub first_of : CliError → List Text → Result CliError Text
first_of missing [] = err missing
first_of missing (a ∷ more) = if is_blank a then err missing else ok a

-- The name of -n, or the argument.
unfoldable pub client_name : Call → Result CliError Text
client_name c = if is_blank c.name then first_of name_missing c.args else ok c.name
