-- ===== src/Lib.antt =====
-- uncut-core: a node that serves several VPN protocols behind one host.
--
-- A node keeps its settings and its clients in an SQLite file. The commands (internal/nodeops)
-- change that file and ask the daemon to rebuild. The daemon loads the settings (internal/setup),
-- renders the configurations of sing-box, nginx and the Telegram proxy, lets each consumer check
-- its own, writes the subscriptions of the clients, and reloads the children that the supervisor
-- (internal/supervisor) keeps running.
--
-- Modules and the code that each is about:
--   Base, Text      shared helpers, and the parts of Go's strings, strconv, hex, base64 and url that
--                   the code uses. A text is the list of its code points, an int is ℤ.
--   Config          internal/config/config.go: data, constants, protocol sets, ports.
--   Transport       internal/transport/transport.go: paths, subscription URL, revision.
--   Links           internal/links/links.go: Telegram links.
--   Store           internal/db/store.go: tables as lists of rows, settings as an association list;
--                   `broken` says which statements the engine fails. Migrate has the schema steps.
--   Core            internal/core: client operations (Clients), AmneziaWG keys and addresses (Awg),
--                   links and files of the subscriptions (Subscriptions), public address (IpSync).
--   Singbox, Json   internal/singbox/generator.go: the configuration as a JSON value.
--   Files           internal/config/atomic.go, writeChecked of internal/setup (Checked), and os.Stat and
--                   os.Rename as internal/updater uses them (Moves).
--   Supervisor      internal/supervisor/supervisor.go: one function for each hold of the mutex; Steps
--                   lets the goroutines run in any order. Process objects are shared by address.
--   Setup           internal/setup/setup.go: Load, the stored protocol list, Bootstrap, RebuildAll.
--   Nginx           internal/nginx/generator.go: the stream configuration; Template, Locations and Server
--                   have the lines of the server template, its data and the file set. Reading is no
--                   code of the repository: it says how nginx reads the words and the map of a stream
--                   configuration; Rendered has what it reads in the text of the generator.
--   Tproxy          internal/tproxy: the files of the Telegram proxy, their refresh, and the self-check.
--   Acme            internal/acme/acme.go: when a certificate is current, and issuance with its waits.
--   Updater         internal/updater/singbox.go: the install of a sing-box version by renames.
--   Nodeops         internal/nodeops/nodeops.go: the commands on the store; Certificates has those on
--                   the files. Daemon has the children and the rebuild of daemon.go, Doctor the report
--                   of doctor.go.
--   Cli             cmd/uncut/main.go: the commands of the binary, their guards and what they print.
--   Examples        concrete inputs.
--
-- A function that returns `(value, error)` gives a Result; one that also writes is an Exec, whose
-- state comes back beside an error too, since what was written stays written. Random bytes, the
-- clock, X25519, SHA-256, HMAC, the JSON form of a value, network answers, the consumers' checks,
-- the ACME client (the lego library), the pairing of a certificate and its key, the readers of PEM
-- blocks, the entries of a downloaded archive and the readings that the doctor takes of the host
-- are parameters. So are the answer of the daemon to a request for a reload, which depends on the
-- store and on the files as the command has left them, and what the other goroutines do to the
-- supervisor while a rebuild waits for a child to exit.
--
-- Loops run over the list they range over. The address search has the 253 rounds of the source; a
-- number is printed with one round for each unit, more than it has digits; the migration has one
-- round for each version that is left. A map that the source ranges over is a list in some order:
-- the literal maps of Bootstrap are in the order of the source. The self-check makes the 20
-- attempts of the source.
--
-- Not modelled: the parsing of flags, the daemon and menu commands and the bare root command (which
-- opens the menu) as verbs, the menus, QR codes, metrics and the speed test (input and
-- output); the daemon's HTTP server and its tickers; log files of children and the TLS dial of a
-- probe.
mod Base
pub mod Text
pub mod Transport
pub mod Config
pub mod Store
pub mod Core
pub mod Json
pub mod Links
pub mod Singbox
pub mod Files
pub mod Supervisor
pub mod Setup
pub mod Nginx
pub mod Nodeops
pub mod Cli
mod Examples
pub mod Acme
pub mod Tproxy
pub mod Updater
