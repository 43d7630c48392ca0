-- ===== src/Core/Clients/Roster.antt =====
-- No two clients share a name, a uuid or a tunnel address, whatever operations of
-- internal/core/clients.go run.
use uncut_core.Base.{
  if◌then◌else◌, contains, Distinct, Distinct-snoc, ok, ◌≡◌, refl, ap, false, List, [], ◌∷◌, ◌++◌,
  map, arith,
}
use uncut_core.Text.{Text, text_eq, is_blank}
use uncut_core.Config.{Client}
use uncut_core.Store.Laws.{put_client, remove_client, find_client_by}
use uncut_core.Core.Awg.{ip_of, used_awg_addresses}
use uncut_core.Core.Clients.Prepare.{has_name}

abbrev pub names_of : List Client → List Text
names_of = map (λ c. c.name)

abbrev pub uuids_of : List Client → List Text
uuids_of = map (λ c. c.uuid)

pub record IsRoster (cs : List Client) : Type 0 where
  pub names : Distinct (names_of cs)
  pub uuids : Distinct (uuids_of cs)
  pub addresses : Distinct (used_awg_addresses cs)

pub has_name_lem : (name : Text) (cs : List Client) → has_name name cs ≡ contains (names_of cs) name
unfolding has_name
has_name_lem name [] = refl
has_name_lem name (c ∷ cs) = ground (arith, has_name_lem name cs)

pub put_client_new :
    (c : Client) (cs : List Client)
    → contains (uuids_of cs) c.uuid ≡ false
    → put_client c cs ≡ cs ++ c ∷ []
unfolding put_client
put_client_new c [] h = refl
put_client_new c (d ∷ cs) h = ground (arith, put_client_new c cs)

map-append_one :
    (f : Client → Text) (c : Client) (cs : List Client)
    → map f (cs ++ c ∷ []) ≡ map f cs ++ f c ∷ []
map-append_one f c [] = refl
map-append_one f c (d ∷ cs) = ap (λ r. f d ∷ r) (map-append_one f c cs)

used-append_one :
    (c : Client) (cs : List Client)
    → used_awg_addresses (cs ++ c ∷ []) ≡ (
        if is_blank (ip_of c.awg)
        then used_awg_addresses cs
        else used_awg_addresses cs ++ ip_of c.awg ∷ [])
unfolding used_awg_addresses
used-append_one c [] = refl
used-append_one c (d ∷ cs) = ground (arith, used-append_one c cs)

pub append-IsRoster :
    (c : Client) (cs : List Client)
    → IsRoster cs
    → contains (names_of cs) c.name ≡ false
    → contains (uuids_of cs) c.uuid ≡ false
    → contains (used_awg_addresses cs) (ip_of c.awg) ≡ false
    → IsRoster (cs ++ c ∷ [])
append-IsRoster c cs r n u a = record {
  names = rw map-append_one (Distinct-snoc (names_of cs) c.name r.names n);
  uuids = rw map-append_one (Distinct-snoc (uuids_of cs) c.uuid r.uuids u);
  addresses = rw used-append_one (
      ground
        (arith, Distinct-snoc (used_awg_addresses cs) (ip_of c.awg) r.addresses a, r.addresses));
}

-- Where a client is written back with the same fact, the list of the facts is the same.
map-put_client :
    (f : Client → Text) (c old : Client) (cs : List Client)
    → find_client_by c.uuid cs ≡ ok old
    → f c ≡ f old
    → map f (put_client c cs) ≡ map f cs
unfolding put_client find_client_by
map-put_client f c old [] e same = cc
map-put_client f c old (d ∷ cs) e same = ground (arith, map-put_client f c old cs)

used-put_client :
    (c old : Client) (cs : List Client)
    → find_client_by c.uuid cs ≡ ok old
    → ip_of c.awg ≡ ip_of old.awg
    → used_awg_addresses (put_client c cs) ≡ used_awg_addresses cs
unfolding put_client find_client_by used_awg_addresses
used-put_client c old [] e same = cc
used-put_client c old (d ∷ cs) e same = ground (arith, used-put_client c old cs)

pub put_client-IsRoster :
    (c old : Client) (cs : List Client)
    → IsRoster cs
    → find_client_by c.uuid cs ≡ ok old
    → c.name ≡ old.name
    → c.uuid ≡ old.uuid
    → ip_of c.awg ≡ ip_of old.awg
    → IsRoster (put_client c cs)
put_client-IsRoster c old cs r e n u a = record {
  names = rw (map-put_client (λ d. d.name) c old cs e n) r.names;
  uuids = rw (map-put_client (λ d. d.uuid) c old cs e u) r.uuids;
  addresses = rw (used-put_client c old cs e a) r.addresses;
}

map-remove_absent :
    (f : Client → Text) (uuid x : Text) (cs : List Client)
    → contains (map f cs) x ≡ false
    → contains (map f (remove_client uuid cs)) x ≡ false
unfolding remove_client
map-remove_absent f uuid x [] h = refl
map-remove_absent f uuid x (c ∷ cs) h = ground (arith, map-remove_absent f uuid x cs)

map-remove-Distinct :
    (f : Client → Text) (uuid : Text) (cs : List Client)
    → Distinct (map f cs)
    → Distinct (map f (remove_client uuid cs))
unfolding remove_client
map-remove-Distinct f uuid [] d = tt
map-remove-Distinct f uuid (c ∷ cs) d =
    ground (arith, map-remove-Distinct f uuid cs d.1, map-remove_absent f uuid (f c) cs d.0)

used-remove_absent :
    (uuid x : Text) (cs : List Client)
    → contains (used_awg_addresses cs) x ≡ false
    → contains (used_awg_addresses (remove_client uuid cs)) x ≡ false
unfolding remove_client used_awg_addresses
used-remove_absent uuid x [] h = refl
used-remove_absent uuid x (c ∷ cs) h = ground (arith, used-remove_absent uuid x cs)

used-remove-Distinct :
    (uuid : Text) (cs : List Client)
    → Distinct (used_awg_addresses cs)
    → Distinct (used_awg_addresses (remove_client uuid cs))
unfolding remove_client used_awg_addresses
used-remove-Distinct uuid [] d = tt
used-remove-Distinct uuid (c ∷ cs) d =
    ground (arith, used-remove-Distinct uuid cs, used-remove_absent uuid (ip_of c.awg) cs)

pub remove-IsRoster :
    (uuid : Text) (cs : List Client) → IsRoster cs → IsRoster (remove_client uuid cs)
remove-IsRoster uuid cs r = record {
  names = map-remove-Distinct (λ c. c.name) uuid cs r.names;
  uuids = map-remove-Distinct (λ c. c.uuid) uuid cs r.uuids;
  addresses = used-remove-Distinct uuid cs r.addresses;
}

pub find_uuid :
    (uuid : Text) (cs : List Client) {c : Client} → find_client_by uuid cs ≡ ok c → c.uuid ≡ uuid
unfolding find_client_by
find_uuid uuid [] h = cc
find_uuid uuid (d ∷ cs) {c} h = ground (arith, find_uuid uuid cs {c = c})
