-- ===== src/Nodeops/Numbers/Laws.antt =====
-- internal/nodeops/nodeops.go: what is read back of the AmneziaWG port.
use uncut_core.Base.{
  Result, ok, err, continue, ◌>>◌, continue-ok, ℕ, zero, suc, ◌≤◌, ◌≡◌, refl, false, arith,
}
use uncut_core.Text.{Text}
use uncut_core.Text.Decimal.{ℤ, pos, negsuc, itoa, atoi, atoi-print}
use uncut_core.Config.Ports.{PortError, validate_positive, validate_awg_port}
use uncut_core.Store.{select_setting, DbError, Store, set_setting}
use uncut_core.Setup.{get}
use uncut_core.Setup.Load.{port_or_zero}
use uncut_core.Setup.Protocols.Laws.{get-set_setting}
use uncut_core.Nodeops.{Context, from_db, reloaded, save}
use uncut_core.Nodeops.Numbers.{awg_port_key, valid_text, port_text, set_awg_port}

pub from_db-ok : {A : Type 0} (r : Result DbError A) (a : A) → from_db r ≡ ok a → r ≡ ok a
from_db-ok (ok b) a h = ground (arith, h)
from_db-ok (err e) a h = ground (arith, h)

save-ok : (key v : Text) (s : Store) → (save key v s).0 ≡ ok tt → (set_setting key v s).0 ≡ ok tt
unfolding save
save-ok key v s h = from_db-ok (set_setting key v s).0 tt h

get-saved_lem :
    (k : Context) (key v : Text) (s : Store)
    → (set_setting key v s).0 ≡ ok tt
    → s.broken (select_setting key) ≡ false
    → get key (reloaded k (save key v s).1).1 ≡ v
unfolding reloaded save
get-saved_lem k key v s h r = get-set_setting key v s h r

-- A write and a reload that both end well leave what was written.
pub get-saved :
    (k : Context) (key v : Text) (s : Store) {u : Unit {0}}
    → (continue (save key v s).0 (λ _. reloaded k) (save key v s).1).0 ≡ ok u
    → s.broken (select_setting key) ≡ false
    → get key (continue (save key v s).0 (λ _. reloaded k) (save key v s).1).1 ≡ v
get-saved k key v s h r =
    let (tt, e, q) = continue-ok (save key v s).0 (λ _. reloaded k) (save key v s).1 h in
    rw q (get-saved_lem k key v s (save-ok key v s e) r)

validate_positive-bound : (n : ℕ) → validate_awg_port (pos n) ≡ ok tt → (1 ≤ n) × (n ≤ 65535)
unfolding validate_awg_port validate_positive
validate_positive-bound n h = ground (arith, h)

negative_refused : (n : ℕ) → validate_awg_port (negsuc n) ≡ err PortError.out_of_range
unfolding validate_awg_port
negative_refused n = refl

valid_text-ok :
    (k : Context) (r : Result PortError (Unit {0})) (t value : Text)
    → valid_text k r t ≡ ok value
    → (r ≡ ok tt) × (t ≡ value)
valid_text-ok k (ok tt) t value h = (refl, ground (arith, h))
valid_text-ok k (err e) t value h = ground (arith, h)

-- The text that is stored for a port reads as the port.
port_text-read :
    (k : Context) (port : ℤ) (value : Text)
    → port_text k port ≡ ok value
    → port_or_zero (atoi value) ≡ port
unfolding atoi itoa
port_text-read k (pos zero) value h = ground (arith, h)
port_text-read k (pos (suc n)) value h =
    let (e, t) = valid_text-ok k (validate_awg_port (pos (suc n))) (itoa (pos (suc n))) value h in
    let b = validate_positive-bound (suc n) e in
    rw (← t) (rw (atoi-print (suc n) (omega (arith, b))) refl)
port_text-read k (negsuc n) value h =
    let (e, t) = valid_text-ok k (validate_awg_port (negsuc n)) (itoa (negsuc n)) value h in
    ground (arith, negative_refused n, e)

-- A port that is set without an error is the port that the settings have from then on, where
-- reading the setting does not fail.
pub set_awg_port-read :
    (k : Context) (port : ℤ) (s : Store)
    → (set_awg_port k port s).0 ≡ ok tt
    → s.broken (select_setting awg_port_key) ≡ false
    → port_or_zero (atoi (get awg_port_key (set_awg_port k port s).1)) ≡ port
unfolding set_awg_port
set_awg_port-read k port s h r =
    let (value, e, q) =
      continue-ok (port_text k port) (λ value. save awg_port_key value >> reloaded k) s h in
    rw q (rw (get-saved k awg_port_key value s (rw q at h) r) (port_text-read k port value e))
