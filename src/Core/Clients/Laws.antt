-- ===== src/Core/Clients/Laws.antt =====
-- What the operations of internal/core/clients.go do to the clients that the store shows.
use uncut_core.Base.Chain.{>>=-eq-ok}
use uncut_core.Base.{
  contains, ok, err, Result-cases, ℕ, ◌≡◌, refl, subst, ◌⊎◌, inl, inr, false, Option, List, arith,
}
use uncut_core.Text.{Text, text_eq, is_blank}
use uncut_core.Text.Encode.{Bytes, hex_encode}
use uncut_core.Config.{Client}
use uncut_core.Store.{Store, get_clients}
use uncut_core.Store.Laws.{stamp, put_client, Shows, add_client-Shows, get_clients-Shows}
use uncut_core.Core.{CoreError, wrap, Draw}
use uncut_core.Core.Awg.{random_wg_key_pair, next_awg_address, ip_of, used_awg_addresses}
use uncut_core.Core.Awg.Laws.{next_awg_address_ok, awg_ip-not_blank}
use uncut_core.Core.Clients.Prepare.{
  validate_client_name, cleaned, has_name, new_client, no_such_name, prepare,
}
use uncut_core.Core.Clients.{save_client, add_client_named}

-- A write of a client, in terms of what the store shows.
pub save_client-Shows :
    (now : ℕ) (c : Client) (s : Store) {cs : List Client}
    → Shows s cs
    → ((save_client now c s).0 ≡ ok c) × Shows (save_client now c s).1 (put_client (stamp now c) cs)
      ⊎ ((e : CoreError) × ((save_client now c s).0 ≡ err e)) × ((save_client now c s).1 ≡ s)
unfolding save_client
save_client-Shows now c s {cs} h = ground (arith, add_client-Shows now c s h)

-- What `AddClient` guarantees of the client that it returns, given the clients that there were.
pub record Created (name : Text) (d : Draw) (cs : List Client) (c : Client) : Type 0 where
  pub named : c.name ≡ name
  pub accepted : validate_client_name name ≡ ok tt
  pub new_name : has_name name cs ≡ false
  pub unshared : contains (used_awg_addresses cs) (ip_of c.awg) ≡ false
  pub routed : is_blank (ip_of c.awg) ≡ false
  pub identity : c.uuid ≡ d.uuid
  pub token : c.sub_hash ≡ hex_encode d.sub_hash_bytes

new_client-Created :
    (name : Text) (protos : List Text) (d : Draw) (ip : Text) (keys : Text × Text)
    (cs : List Client)
    → validate_client_name name ≡ ok tt
    → has_name name cs ≡ false
    → contains (used_awg_addresses cs) ip ≡ false
    → is_blank ip ≡ false
    → Created name d cs (new_client name protos d ip keys)
unfolding new_client
new_client-Created name protos d ip keys cs v n u b = record {
  named = refl;
  accepted = v;
  new_name = n;
  unshared = u;
  routed = b;
  identity = refl;
  token = refl;
}

next_awg_address-free :
    (used : List Text) {ip : Text}
    → next_awg_address used ≡ ok ip
    → (contains used ip ≡ false) × (is_blank ip ≡ false)
next_awg_address-free used h =
    let (m, below, same, f) = next_awg_address_ok used h in
    (rw same f.free, rw same (awg_ip-not_blank m))

module _ (x25519 : Bytes → Option Bytes) where
  -- A client is built only after every check has passed.
  prepare_ok :
      (name : Text) (protocols : List Text) (d : Draw) (s : Store) {cs : List Client} {c : Client}
      → Shows s cs
      → prepare x25519 name protocols d s ≡ ok c
      → Created name d cs c
  unfolding prepare wrap no_such_name
  prepare_ok name protocols d s {cs} {c} h p =
      let (valid, e1, p1) = >>=-eq-ok (validate_client_name name) _ p in
      let (protos, e2, p2) = >>=-eq-ok (cleaned protocols) _ p1 in
      let (cs', e3, p3) = >>=-eq-ok (wrap (get_clients s)) _ p2 in
      let (fresh, e4, p4) = >>=-eq-ok (no_such_name name cs') _ p3 in
      let (ip, e5, p5) = >>=-eq-ok (next_awg_address (used_awg_addresses cs')) _ p4 in
      let (keys, e6, p6) = >>=-eq-ok (random_wg_key_pair x25519 d.keys.private_bytes) _ p5 in
      let same : cs' ≡ cs = ground (arith, get_clients-Shows s h) in
      let new_name : has_name name cs ≡ false = ground (arith, e4, same) in
      let accepted : validate_client_name name ≡ ok tt = ground (arith, e1) in
      let (free, routed) = next_awg_address-free (used_awg_addresses cs') e5 in
      subst (Created name d cs) (ground (arith, p6))
        (new_client-Created name protos d ip keys cs accepted new_name (rw (← same) free) routed)

  -- On a store whose rows read as a list of clients, AddClient returns a client of the given name,
  -- which nobody had, with an address of its own, and the store shows it; or it returns an error
  -- and the store is as it was.
  pub add_client_named_lem :
      (name : Text) (protocols : List Text) (d : Draw) (s : Store) {cs : List Client}
      → Shows s cs
      → ((c : Client) × ((add_client_named x25519 name protocols d s).0 ≡ ok c)
          × Created name d cs c
          × Shows (add_client_named x25519 name protocols d s).1 (put_client (stamp d.now c) cs))
        ⊎ (((e : CoreError) × ((add_client_named x25519 name protocols d s).0 ≡ err e))
            × ((add_client_named x25519 name protocols d s).1 ≡ s))
  unfolding add_client_named
  add_client_named_lem name protocols d s {cs} h =
      elim (Result-cases (prepare x25519 name protocols d s)) [
        | inl (c, e) ↦ elim (save_client-Shows d.now c s h) [
          | inl (done, shows) ↦ inl (
            c,
            ground (arith, e, done),
            prepare_ok name protocols d s h e,
            ground (arith, e, shows),
          )
          | inr ((x, refused), same) ↦
              inr ((x, ground (arith, e, refused)), ground (arith, e, same))
        ]
        | inr (x, e) ↦ inr ((x, ground (arith, e)), ground (arith, e))
      ]
