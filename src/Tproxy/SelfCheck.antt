-- ===== src/Tproxy/SelfCheck.antt =====
-- internal/tproxy/selfcheck.go: the probes of the Telegram bridge.
--
-- A probe is an event: its answer, or that the context was cancelled in the wait after it.
use uncut_core.Base.{
  eqb, if◌then◌else◌, length, Result, ok, err, ℕ, zero, suc, Bool, true, false, Option, none, some,
}
use uncut_core.Text.{Text, codes, is_blank}
use uncut_core.Text.Search.{contains_text}
use uncut_core.Text.Encode.{Bytes}
use uncut_core.Links.{derive_capability}
use uncut_core.Tproxy.{default_backend, Answer, no_answer, status}

unfoldable pub bridge_page_marker : Text
bridge_page_marker = codes "tproxy-v1."

abbrev pub probe_attempts : ℕ
probe_attempts = 20

pub data BridgeError : Type 0 where
  bad_secret : BridgeError
  served_stub : ℕ → BridgeError
  cancelled : BridgeError
  unreachable : BridgeError

-- What a probe got: the body of an answer with status 200, none on any error.
unfoldable pub probe_body : Answer → Option Text
probe_body no_answer = none
probe_body (status n body) = if eqb n 200 then body else none

unfoldable pub page_result : Text → Result BridgeError (Unit {0})
page_result body =
    if contains_text bridge_page_marker body then ok tt else err (served_stub (length body))

abbrev after : Option Text → Bool → Result BridgeError (Unit {0}) → Result BridgeError (Unit {0})
after (some body) stop rest = page_result body
after none true rest = err cancelled
after none false rest = rest

-- `probe k` is the answer to the attempt k, `stops k` whether the wait after it is cut short.
module _ (probe : ℕ → Answer) (stops : ℕ → Bool) where
  -- With `left` attempts to go, from the attempt `k`.
  unfoldable pub probe_from : ℕ → ℕ → Result BridgeError (Unit {0})
  probe_from zero k = err unreachable
  probe_from (suc left) k =
      let rest = probe_from left (suc k) in after (probe_body (probe k)) (stops k) rest

  unfoldable pub check_bridge :
      (Bytes → Bytes → Bytes) → Text → Text → Result BridgeError (Unit {0})
  check_bridge hmac_sha256 domain secret =
      if is_blank (derive_capability hmac_sha256 domain secret)
      then err bad_secret
      else probe_from probe_attempts 0

-- The backend that is dialled, and what comes of it.
unfoldable pub check_backend : (Text → Bool) → Text → Bool
check_backend accepts backend = accepts (if is_blank backend then default_backend else backend)
