-- ===== src/Nodeops/Numbers.antt =====
-- internal/nodeops/nodeops.go: the bandwidth, the AmneziaWG port and the public address.
pub mod Laws
use uncut_core.Base.{
  if◌then◌else◌, Result, ok, err, Exec, pure, lift, ◌>>=◌, ◌>>◌, zero, suc, Bool, true, false, ◌||◌,
  Option, [], ◌∷◌,
}
use uncut_core.Text.{Text, codes, is_blank}
use uncut_core.Text.Decimal.{ℤ, pos, negsuc, itoa}
use uncut_core.Config.Ports.{PortError, validate_awg_port}
use uncut_core.Store.{Store}
use uncut_core.Core.IpSync.{IpError, server_ip, sync_server_ip}
use uncut_core.Nodeops.{
  NodeError, negative_bandwidth, bad_port, ip_failed, Context, reloaded, save, save_all,
}

abbrev pub is_negative : ℤ → Bool
is_negative (pos n) = false
is_negative (negsuc n) = true

-- The stored form of a cap; zero clears it.
unfoldable pub cap_text : ℤ → Text
unfolding itoa
cap_text (pos zero) = []
cap_text (pos (suc n)) = itoa (pos (suc n))
cap_text (negsuc n) = []

unfoldable pub awg_port_key : Text
awg_port_key = codes "awg_port"

module _ (k : Context) where
  unfoldable pub set_hysteria2_bandwidth : ℤ → ℤ → Exec Store NodeError (Unit {0})
  unfolding cap_text save_all reloaded
  set_hysteria2_bandwidth up down s =
      let store_it : Exec Store NodeError (Unit {0}) = do
        save_all (
            (codes "hysteria2_up_mbps", cap_text up)
            ∷ (codes "hysteria2_down_mbps", cap_text down)
            ∷ [])
        reloaded k
      in if is_negative up || is_negative down then (err negative_bandwidth, s) else store_it s

  abbrev pub valid_text : Result PortError (Unit {0}) → Text → Result NodeError Text
  valid_text (ok _) text = ok text
  valid_text (err e) text = err (bad_port e)

  -- The stored form of a port; zero clears it.
  abbrev pub port_text : ℤ → Result NodeError Text
  port_text (pos zero) = ok []
  port_text (pos (suc n)) = valid_text (validate_awg_port (pos (suc n))) (itoa (pos (suc n)))
  port_text (negsuc n) = valid_text (validate_awg_port (negsuc n)) (itoa (negsuc n))

  unfoldable pub set_awg_port : ℤ → Exec Store NodeError (Unit {0})
  unfolding validate_awg_port itoa save reloaded awg_port_key
  set_awg_port port = do value ← lift (port_text port); save awg_port_key value; reloaded k

  abbrev pub detected : Result IpError (Text × Bool) × Store → Result NodeError Text × Store
  detected (ok (ip, changed), s) = (ok ip, s)
  detected (err e, s) = (err (ip_failed e), s)

  -- The address that was stored: the given one, or the detected one.
  unfoldable pub sync_ip : (Text → Option Text) → (Text → Bool) → Text → Exec Store NodeError Text
  unfolding sync_server_ip save reloaded server_ip
  sync_ip answer is_ipv4 forced s =
      let given : Exec Store NodeError Text = do save server_ip forced; reloaded k; pure forced
      in let asked : Exec Store NodeError Text = do
        ip ← λ s'. detected (sync_server_ip answer is_ipv4 true s')
        reloaded k
        pure ip
        in if is_blank forced then asked s else given s
