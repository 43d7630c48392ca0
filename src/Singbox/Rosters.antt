-- ===== src/Singbox/Rosters.antt =====
-- internal/singbox/generator.go: the users of the generated inbounds.
use uncut_core.Base.{
  if◌then◌else◌, Bool-cases, Option-cases, All, ◌==◌, contains, All-contains, ◌≡◌, refl, sym, ap,
  ◌∙◌, inl, inr, Bool, true, false, not, ◌&&◌, ◌||◌, Option, none, some, List, [], ◌∷◌, ◌++◌, map,
  arith,
}
use uncut_core.Text.{Text, codes, Text-discrete, text_eq, is_blank}
use uncut_core.Config.{ClientAwg, Client, Settings}
use uncut_core.Config.Protocols.{
  xhttp_stealth, vless_ws, vless_httpupgrade, vless_grpc, vless_reality, hysteria2, amneziawg,
  default_protocols, is_valid_protocol, resolve_protocols,
}
use uncut_core.Config.Protocols.Cleaning.{IsKnown}
use uncut_core.Json.{Json, array, get_field, get}
use uncut_core.Singbox.Users.{
  is_allowed, allowed_users, vless_user, reality_user, hysteria2_user, peer, peer_of, add_peer,
  peers, amneziawg_endpoint,
}
use uncut_core.Singbox.Inbounds.{cert_file, hysteria2_inbound, generate_inbound}
use uncut_core.Singbox.{generate_config}
use uncut_core.Config.Protocols.Laws.{inherits, effective_protocols_rule}

-- The server has the protocol, and the client inherits the server's set or lists the protocol.
abbrev pub has_access : Settings → Text → Client → Bool
has_access s p c =
    not (is_blank c.uuid)
    && contains (resolve_protocols s.protocols) p
    && (inherits c || contains c.protocols p)

-- The clients with access to the protocol, in their order.
abbrev pub with_access : Settings → Text → List Client → List Client
with_access s p [] = []
with_access s p (c ∷ cs) =
    let rest = with_access s p cs in if has_access s p c then c ∷ rest else rest

abbrev material_of : Settings → Client → Option ClientAwg → List ClientAwg
material_of s c none = []
material_of s c (some a) =
    if has_access s amneziawg c && not (is_blank a.pub_key) && not (is_blank a.ip)
    then a ∷ []
    else []

-- The AmneziaWG material of the clients with access to AmneziaWG that have a public key and an
-- address.
abbrev pub keyed : Settings → List Client → List ClientAwg
keyed s [] = []
keyed s (c ∷ cs) = material_of s c c.awg ++ keyed s cs

is_allowed-has_access :
    (s : Settings) (c : Client) (p : Text) → is_allowed c s.protocols p ≡ has_access s p c
unfolding is_allowed
is_allowed-has_access s c p =
    let (rule, _) = effective_protocols_rule c s.protocols in ground (arith, rule p)

allowed_users-map :
    (s : Settings) (cs : List Client) (p : Text) (user : Client → Json)
    → allowed_users cs s.protocols p user ≡ map user (with_access s p cs)
unfolding allowed_users
allowed_users-map s [] p user = refl
allowed_users-map s (c ∷ cs) p user =
    rw (is_allowed-has_access s c p, allowed_users-map s cs p user)
      (elim (Bool-cases (has_access s p c)) [ inl e ↦ rw e refl | inr e ↦ rw e refl ])

-- The entry of a client among the users of a protocol.
abbrev pub user_for : Text → Client → Json
user_for p =
    if p == vless_reality
    then reality_user
    else if p == hysteria2
    then hysteria2_user
    else vless_user

-- The certificate that hysteria2 waits for.
abbrev pub has_certificate : (Text → Bool) → Settings → Bool
has_certificate exists s =
    exists (cert_file s (codes ".crt")) && exists (cert_file s (codes ".key"))

abbrev pub is_none : Option Json → Bool
is_none none = true
is_none (some j) = false

abbrev pub users_of : Option Json → Option Json
users_of none = none
users_of (some j) = get (codes "users") j

abbrev pub as_users : List Json → Option Json
as_users us = some (array us)

module _ (exists : Text → Bool) (s : Settings) (cs : List Client) where
  abbrev pub HasRoster : Text → Type 0
  HasRoster p = users_of (generate_inbound exists p s cs) ≡ (
      if p == amneziawg || (p == hysteria2 && not (has_certificate exists s))
      then none
      else as_users (map (user_for p) (with_access s p cs)))

  hysteria2-HasRoster : HasRoster hysteria2
  unfolding generate_inbound get get_field Text-discrete xhttp_stealth vless_ws vless_httpupgrade
      vless_grpc vless_reality hysteria2 amneziawg hysteria2_inbound
  hysteria2-HasRoster = elim (Bool-cases (has_certificate exists s)) [
    | inl e ↦ rw e (ap as_users (allowed_users-map s cs hysteria2 hysteria2_user))
    | inr e ↦ rw e refl
  ]

  All-HasRoster : All HasRoster default_protocols
  unfolding default_protocols generate_inbound get get_field Text-discrete xhttp_stealth vless_ws
      vless_httpupgrade vless_grpc vless_reality hysteria2 amneziawg hysteria2_inbound
  All-HasRoster = (
    ap as_users (allowed_users-map s cs xhttp_stealth vless_user),
    (
      ap as_users (allowed_users-map s cs vless_ws vless_user),
      (
        ap as_users (allowed_users-map s cs vless_httpupgrade vless_user),
        (
          ap as_users (allowed_users-map s cs vless_grpc vless_user),
          (
            ap as_users (allowed_users-map s cs vless_reality reality_user),
            (hysteria2-HasRoster, (refl, tt)),
          ),
        ),
      ),
    ),
  )

  pub HasRoster_lem : (p : Text) → IsKnown p → HasRoster p
  unfolding is_valid_protocol
  HasRoster_lem p known = All-contains HasRoster default_protocols p All-HasRoster known

  abbrev HasInbound : Text → Type 0
  HasInbound p =
      is_none (generate_inbound exists p s cs)
      ≡ (p == amneziawg || (p == hysteria2 && not (has_certificate exists s)))

  hysteria2-HasInbound : HasInbound hysteria2
  unfolding generate_inbound Text-discrete xhttp_stealth vless_ws vless_httpupgrade vless_grpc
      vless_reality hysteria2 amneziawg hysteria2_inbound
  hysteria2-HasInbound = elim (Bool-cases (has_certificate exists s)) [
    | inl e ↦ rw e refl
    | inr e ↦ rw e refl
  ]

  All-HasInbound : All HasInbound default_protocols
  unfolding default_protocols generate_inbound Text-discrete xhttp_stealth vless_ws
      vless_httpupgrade vless_grpc vless_reality hysteria2 amneziawg hysteria2_inbound
  All-HasInbound = (refl, (refl, (refl, (refl, (refl, (hysteria2-HasInbound, (refl, tt)))))))

  HasInbound_lem : (p : Text) → IsKnown p → HasInbound p
  unfolding is_valid_protocol
  HasInbound_lem p known = All-contains HasInbound default_protocols p All-HasInbound known

  endpoints_lem : get (codes "endpoints") (generate_config exists s cs) ≡ (
      if contains (resolve_protocols s.protocols) amneziawg
      then some (array (amneziawg_endpoint s cs ∷ []))
      else none)
  unfolding generate_config get get_field Text-discrete
  endpoints_lem = elim (Bool-cases (contains (resolve_protocols s.protocols) amneziawg)) [
    | inl e ↦ rw e refl
    | inr e ↦ rw e refl
  ]

peer_of-cons :
    (s : Settings) (c : Client) (rest : List Json)
    → add_peer (peer_of s c) rest ≡ map peer (material_of s c c.awg) ++ rest
unfolding peer_of
peer_of-cons s c rest = elim (Option-cases c.awg) [
  | inl e ↦ rw e refl
  | inr (a, e) ↦
      let (rule, _) = effective_protocols_rule c s.protocols in
      let member = rule amneziawg in rw e (ground (arith, member))
]

map_over_append :
    (f : ClientAwg → Json) (xs ys : List ClientAwg) → map f (xs ++ ys) ≡ map f xs ++ map f ys
map_over_append f [] ys = refl
map_over_append f (x ∷ xs) ys = ap (λ r. f x ∷ r) (map_over_append f xs ys)

peers-map : (s : Settings) (cs : List Client) → peers s cs ≡ map peer (keyed s cs)
unfolding peers
peers-map s [] = refl
peers-map s (c ∷ cs) =
    ap (add_peer (peer_of s c)) (peers-map s cs)
    ∙ peer_of-cons s c (map peer (keyed s cs))
    ∙ sym (map_over_append peer (material_of s c c.awg) (keyed s cs))

pub peers_lem :
    (s : Settings) (cs : List Client)
    → get (codes "peers") (amneziawg_endpoint s cs) ≡ as_users (map peer (keyed s cs))
unfolding amneziawg_endpoint get get_field Text-discrete
peers_lem s cs = ap as_users (peers-map s cs)

-- Of the known protocols exactly AmneziaWG, and hysteria2 without both of its certificate files,
-- have no inbound. The users of an inbound are the clients with a uuid to whom the server's active
-- set and their own allowlist give the protocol, in order. The configuration has the AmneziaWG
-- endpoint exactly if AmneziaWG is active, and its peers are the clients with access to AmneziaWG
-- that have a public key and an address.
pub users-generate_inbound :
    (exists : Text → Bool) (p : Text) (s : Settings) (cs : List Client)
    → IsKnown p
    → (is_none (generate_inbound exists p s cs)
        ≡ (p == amneziawg || (p == hysteria2 && not (has_certificate exists s))))
      × (users_of (generate_inbound exists p s cs) ≡ (
          if p == amneziawg || (p == hysteria2 && not (has_certificate exists s))
          then none
          else as_users (map (user_for p) (with_access s p cs))))
      × (get (codes "endpoints") (generate_config exists s cs) ≡ (
          if contains (resolve_protocols s.protocols) amneziawg
          then some (array (amneziawg_endpoint s cs ∷ []))
          else none))
      × (get (codes "peers") (amneziawg_endpoint s cs) ≡ as_users (map peer (keyed s cs)))
users-generate_inbound exists p s cs known = (
  HasInbound_lem exists s cs p known,
  HasRoster_lem exists s cs p known,
  endpoints_lem exists s cs,
  peers_lem s cs,
)
