-- ===== src/Core/IpSync/Laws.antt =====
-- internal/core/ipsync.go: the address that a sync returns and stores.
use uncut_core.Base.{
  Bool-cases, Option-cases, contains, Result, ok, err, Result-cases, ◌≡◌, inl, inr, Bool, true,
  false, Option, some, List, [], ◌∷◌, arith,
}
use uncut_core.Text.{Text, text_eq}
use uncut_core.Text.Trim.{trim_space}
use uncut_core.Store.{select_setting, Store, get_setting, set_setting}
use uncut_core.Store.Laws.{get_setting-set_setting}
use uncut_core.Core.IpSync.{
  IpError, default_ip_endpoints, server_ip, first_answer, get_public_ipv4, saved_ip, ip_saved,
  sync_from, sync_server_ip,
}

-- The address is the trimmed answer of some endpoint, and IPv4.
pub record IsAnswer (answer : Text → Option Text) (is_ipv4 : Text → Bool) (endpoints : List Text)
    (ip : Text) : Type 0 where
  pub endpoint : Text
  pub body : Text
  pub asked : contains endpoints endpoint ≡ true
  pub answered : answer endpoint ≡ some body
  pub trimmed : trim_space body ≡ ip
  pub accepted : is_ipv4 ip ≡ true

module _ (answer : Text → Option Text) (is_ipv4 : Text → Bool) where
  later :
      (e : Text) (es : List Text) {ip : Text}
      → IsAnswer answer is_ipv4 es ip
      → IsAnswer answer is_ipv4 (e ∷ es) ip
  later e es a = record {
    endpoint = a.endpoint;
    body = a.body;
    asked = ground (arith, a.asked);
    answered = a.answered;
    trimmed = a.trimmed;
    accepted = a.accepted;
  }

  first_answer-IsAnswer :
      (es : List Text) {ip : Text}
      → first_answer answer is_ipv4 es ≡ ok ip
      → IsAnswer answer is_ipv4 es ip
  unfolding first_answer
  first_answer-IsAnswer [] h = ground (arith, h)
  first_answer-IsAnswer (e ∷ es) {ip} h = elim (Option-cases (answer e)) [
    | inl n ↦ later e es (first_answer-IsAnswer es (ground (arith, n, h)))
    | inr (body, q) ↦ elim (Bool-cases (is_ipv4 (trim_space body))) [
      | inl v ↦ record {
        endpoint = e;
        body = body;
        asked = ground arith;
        answered = q;
        trimmed = ground (arith, q, v, h);
        accepted = ground (arith, q, v, h);
      }
      | inr v ↦ later e es (first_answer-IsAnswer es (ground (arith, q, v, h)))
    ]
  ]

  ip_saved-stored :
      (ip : Text) (s : Store) {got : Text} {changed : Bool}
      → (ip_saved answer is_ipv4 ip (set_setting server_ip ip s)).0 ≡ ok (got, changed)
      → s.broken (select_setting server_ip) ≡ false
      → (ip ≡ got)
        × (get_setting server_ip (ip_saved answer is_ipv4 ip (set_setting server_ip ip s)).1
            ≡ ok ip)
  ip_saved-stored ip s h readable = elim (Result-cases (set_setting server_ip ip s).0) [
    | inl (u, e) ↦ ground (arith, e, h, get_setting-set_setting server_ip server_ip ip s e readable)
    | inr (x, e) ↦ ground (arith, e, h)
  ]

  sync_from-stored :
      (force : Bool) (r : Result IpError Text) (s : Store) {got : Text} {changed : Bool}
      → (sync_from answer is_ipv4 force r s).0 ≡ ok (got, changed)
      → s.broken (select_setting server_ip) ≡ false
      → (r ≡ ok got)
        × (saved_ip answer is_ipv4 (get_setting server_ip (sync_from answer is_ipv4 force r s).1)
            ≡ got)
  unfolding sync_from
  sync_from-stored force (err e) s h readable = ground (arith, h)
  sync_from-stored force (ok ip) s {got} {changed} h readable =
      ground (arith, h, ip_saved-stored ip s {got = got} {changed = changed})

-- A sync that returns an address returns the trimmed IPv4 answer of one of the endpoints, and the
-- stored address reads as it from then on, where reading it does not fail.
pub sync_server_ip_lem :
    (answer : Text → Option Text) (is_ipv4 : Text → Bool) (force : Bool) (s : Store) {ip : Text}
    {changed : Bool}
    → (sync_server_ip answer is_ipv4 force s).0 ≡ ok (ip, changed)
    → s.broken (select_setting server_ip) ≡ false
    → IsAnswer answer is_ipv4 default_ip_endpoints ip
      × (saved_ip answer is_ipv4 (get_setting server_ip (sync_server_ip answer is_ipv4 force s).1)
          ≡ ip)
unfolding sync_server_ip get_public_ipv4
sync_server_ip_lem answer is_ipv4 force s {ip} {changed} h readable =
    let (found, stored_as) =
      sync_from-stored answer is_ipv4 force (first_answer answer is_ipv4 default_ip_endpoints) s
        {got = ip} {changed = changed} h readable in
    (first_answer-IsAnswer answer is_ipv4 default_ip_endpoints found, stored_as)
