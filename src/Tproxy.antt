-- ===== src/Tproxy.antt =====
-- internal/tproxy/config.go: the files of the Telegram proxy, and the upkeep of Telegram's own.
--
-- `json.MarshalIndent` is a parameter, and so is what a server answers.
pub mod SelfCheck
pub mod Laws
use uncut_core.Base.{
  eqb, if◌then◌else◌, ◌==◌, Result, ok, err, Exec, Map, ℕ, ◌*◌, Bool, true, false, not, ◌||◌,
  Option, none, some, [], ◌∷◌, ◌++◌,
}
use uncut_core.Text.{Text, codes, text_eq, is_blank}
use uncut_core.Text.Search.{contains_text}
use uncut_core.Text.Decimal.{pos, print}
use uncut_core.Json.{Json, str, num, bool, array, object}
use uncut_core.Config.Ports.{ports}
use uncut_core.Files.{DiskOp, make_dir, Disk, write_file_atomic, read_file, join_path}
use uncut_core.Files.Moves.{stats}

abbrev number : Text → ℕ → Text × Json
number key n = (key, num (pos n))

-- In the order of the fields.
unfoldable pub default_limits : Json
default_limits = object (
    number (codes "max_header_bytes") (16 * 1024)
    ∷ number (codes "max_body_bytes") (2 * 1024 * 1024)
    ∷ number (codes "max_frame_payload") (1024 * 1024)
    ∷ number (codes "carrier_batch_bytes") (2 * 1024 * 1024)
    ∷ number (codes "max_streams_per_session") 128
    ∷ number (codes "max_closed_stream_ids") 4096
    ∷ number (codes "max_pending_per_session") (32 * 1024 * 1024)
    ∷ number (codes "max_pending_global") (512 * 1024 * 1024)
    ∷ number (codes "max_pending_items_per_session") (16 * 1024)
    ∷ number (codes "max_pending_items_global") (256 * 1024)
    ∷ number (codes "max_sessions_per_ip") 0
    ∷ number (codes "max_sessions_global") 128
    ∷ number (codes "max_streams_global") 4096
    ∷ number (codes "max_backend_dials_in_flight") 256
    ∷ number (codes "new_sessions_per_minute") 600
    ∷ number (codes "new_sessions_burst") 128
    ∷ number (codes "new_streams_per_minute") 6000
    ∷ number (codes "new_streams_burst") 512
    ∷ number (codes "max_bootstraps_per_ip") 0
    ∷ number (codes "max_bootstraps_global") 512
    ∷ number (codes "new_bootstraps_per_minute") 1200
    ∷ number (codes "new_bootstraps_burst") 256
    ∷ number (codes "max_profiles") 32
    ∷ [])

unfoldable pub default_timeouts : Json
default_timeouts = object (
    (codes "backend_dial", str (codes "5s"))
    ∷ (codes "long_poll", str (codes "25s"))
    ∷ (codes "reconnect_grace", str (codes "2m"))
    ∷ (codes "bootstrap_lifetime", str (codes "2m"))
    ∷ (codes "read_header", str (codes "10s"))
    ∷ (codes "idle", str (codes "75s"))
    ∷ (codes "shutdown", str (codes "15s"))
    ∷ [])

abbrev pub default_public_dir : Text
default_public_dir = codes "/srv/tproxy-site"

unfoldable pub default_backend : Text
default_backend = codes "127.0.0.1:" ++ print ports.mtproto_bridge

unfoldable pub profiles_json : Text → Json
profiles_json secret = object (
    (
      codes "profiles",
      array (
          object (
            (codes "name", str (codes "default"))
            ∷ (codes "secret", str secret)
            ∷ (codes "backend", str default_backend)
            ∷ (codes "carrier_mode", str (codes "https"))
            ∷ [])
          ∷ []),
    )
    ∷ [])

unfoldable pub config_json : Text → Text → Text → Json
config_json domain public_dir profiles_file = object (
    (codes "public_hostname", str domain)
    ∷ (codes "listen", str (codes "127.0.0.1:8080"))
    ∷ (codes "admin_listen", str (codes "127.0.0.1:8081"))
    ∷ (codes "public_dir", str public_dir)
    ∷ (codes "profiles_file", str profiles_file)
    ∷ (codes "enable_pprof", bool false)
    ∷ (codes "limits", default_limits)
    ∷ (codes "timeouts", default_timeouts)
    ∷ [])

pub data TproxyError : Type 0 where
  no_tproxy_dir no_public_dir : TproxyError
  index_not_written : DiskOp → TproxyError

abbrev index_html : Text
index_html =
    codes
      "<!DOCTYPE html><html><head><meta name=\"robots\" content=\"noindex\"></head><body></body></html>"

abbrev index_written : Result DiskOp (Unit {0}) → Result TproxyError (Unit {0})
index_written (ok _) = ok tt
index_written (err op) = err (index_not_written op)

-- An index that is there is the operator's, and is kept.
unfoldable pub ensure_site_index : Text → Exec Disk TproxyError (Unit {0})
ensure_site_index public_dir d =
    let index = join_path public_dir (codes "index.html") in
    let r = write_file_atomic index index_html 420 d in
    if d.broken (make_dir public_dir)
    then (err no_public_dir, d)
    else if stats index d
    then (ok tt, d)
    else (index_written r.0, r.1)

unfoldable pub profiles_file : Text → Text
profiles_file install_dir =
    join_path (join_path install_dir (codes "tproxy")) (codes "profiles.json")

unfoldable pub config_file : Text → Text
config_file install_dir = join_path (join_path install_dir (codes "tproxy")) (codes "config.json")

module _ (marshal : Json → Text) (install_dir domain secret : Text) where
  abbrev pub rendered : Text → Map Text Text
  rendered public_dir =
      (profiles_file install_dir, marshal (profiles_json secret))
      ∷ (
        config_file install_dir,
        marshal (config_json domain public_dir (profiles_file install_dir)),
      )
      ∷ []

  abbrev pub rendered_after :
      Text → Result TproxyError (Unit {0}) → Result TproxyError (Map Text Text)
  rendered_after public_dir (ok _) = ok (rendered public_dir)
  rendered_after public_dir (err e) = err e

  unfoldable pub files : Text → Exec Disk TproxyError (Map Text Text)
  files public_dir d =
      let dir = if is_blank public_dir then default_public_dir else public_dir in
      let r = ensure_site_index dir d in
      if d.broken (make_dir (join_path install_dir (codes "tproxy")))
      then (err no_tproxy_dir, d)
      else (rendered_after dir r.0, r.1)

-- What a server answers: an error, or a status with the first megabyte of the body, if it can be
-- read.
pub data Answer : Type 0 where
  no_answer : Answer
  status : ℕ → Option Text → Answer

pub data RefreshError : Type 0 where
  not_fetched : RefreshError
  bad_status : ℕ → RefreshError
  not_read unexpected_body : RefreshError
  not_stored : DiskOp → RefreshError

-- `bytes.Contains`; every text contains the empty one.
unfoldable pub has_marker : Text → Text → Bool
has_marker marker body = is_blank marker || contains_text marker body

unfoldable pub body_of : Text → Answer → Result RefreshError Text
body_of marker no_answer = err not_fetched
body_of marker (status n body) = if not (eqb n 200) then err (bad_status n) else elim body [
  | none ↦ err not_read
  | some text ↦
      if is_blank text || not (has_marker marker text) then err unexpected_body else ok text
]

abbrev holds : Option Text → Text → Bool
holds none text = false
holds (some old) text = old == text

abbrev stored : Result DiskOp (Unit {0}) → Result RefreshError Bool
stored (ok _) = ok true
stored (err op) = err (not_stored op)

abbrev put_body : Text → Result RefreshError Text → Exec Disk RefreshError Bool
put_body path (err e) d = (err e, d)
put_body path (ok text) d =
    let r = write_file_atomic path text 416 d in
    if holds (read_file path d) text then (ok false, d) else (stored r.0, r.1)

-- Whether the file was replaced.
unfoldable pub refresh_file : Text → Text → Answer → Exec Disk RefreshError Bool
refresh_file path marker answer d = put_body path (body_of marker answer) d

abbrev pub secret_path : Text
secret_path = codes "/etc/mtproxy/proxy-secret"

abbrev pub multi_path : Text
multi_path = codes "/etc/mtproxy/proxy-multi.conf"

abbrev changed_by : Result RefreshError Bool → Bool
changed_by (ok changed) = changed
changed_by (err e) = false

-- One round of the upkeep, with the two answers; whether `onChange` runs after it. A refresh that
-- fails keeps the current file.
unfoldable pub update : Answer → Answer → Disk → Bool × Disk
update secret_answer multi_answer d =
    let first = refresh_file secret_path [] secret_answer d in
    let second = refresh_file multi_path (codes "proxy_for") multi_answer first.1 in
    (changed_by first.0 || changed_by second.0, second.1)
