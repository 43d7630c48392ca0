-- ===== src/Core/Clients/Steps.antt =====
-- The client operations of internal/core/clients.go as steps of the store, in any order, while the
-- database may fail any statement.
use uncut_core.Base.{
  contains, ok, Result-cases, ℕ, ◌≡◌, refl, ap, ◌∙◌, inl, inr, Bool, false, Option, List, [], ◌∷◌,
  ◌++◌, arith,
}
use uncut_core.Text.{Text, text_eq}
use uncut_core.Text.Encode.{Bytes}
use uncut_core.Config.{Client}
use uncut_core.Store.{Stmt, Store, get_client_by_uuid}
use uncut_core.Store.Laws.{
  stamp, put_client, remove_client, find_client_by, Shows, delete_client-Shows,
  get_client_by_uuid-Shows,
}
use uncut_core.Core.{wrap, Draw}
use uncut_core.Core.Awg.{ip_of}
use uncut_core.Core.Clients.Prepare.{cleaned}
use uncut_core.Core.Clients.{
  save_client, add_client_named, rotate_client_sub, delete_client_by_uuid, update_client_protocols,
  inherit_client_protocols,
}
use uncut_core.Core.Clients.Laws.{save_client-Shows, add_client_named_lem}
use uncut_core.Core.Clients.Roster.{
  uuids_of, IsRoster, has_name_lem, put_client_new, append-IsRoster, put_client-IsRoster,
  remove-IsRoster, find_uuid,
}

-- The store's clients can be read, and no two share a name, a uuid or an address.
pub record IsSound (s : Store) : Type 0 where
  pub clients : List Client
  pub shown : Shows s clients
  pub roster : IsRoster clients

-- One operation, on a store whose clients are `cs`. The uuid that `AddClient` draws is new.
pub data Step (x25519 : Bytes → Option Bytes) (s : Store) (cs : List Client) : Store → Type 0 where
  adds :
      (name : Text) (protocols : List Text) (d : Draw)
      → contains (uuids_of cs) d.uuid ≡ false
      → Step x25519 s cs (add_client_named x25519 name protocols d s).1
  rotates :
      (uuid : Text) (bytes : Bytes) (now : ℕ)
      → Step x25519 s cs (rotate_client_sub uuid bytes now s).1
  deletes : (uuid : Text) → Step x25519 s cs (delete_client_by_uuid uuid s).1
  updates :
      (uuid : Text) (protocols : List Text) (now : ℕ)
      → Step x25519 s cs (update_client_protocols uuid protocols now s).1
  inherits_set : (uuid : Text) (now : ℕ) → Step x25519 s cs (inherit_client_protocols uuid now s).1
  breaks : (broken : Stmt → Bool) → Step x25519 s cs (record s { broken = broken })

stamp-same :
    (now : ℕ) (c : Client)
    → ((stamp now c).name ≡ c.name) × ((stamp now c).uuid ≡ c.uuid) × ((stamp now c).awg ≡ c.awg)
unfolding stamp
stamp-same now c = (refl, refl, refl)

-- Writing back a client that was read, with its name, uuid and address.
save_client-IsSound :
    (now : ℕ) (uuid : Text) (c old : Client) (s : Store) {cs : List Client}
    → Shows s cs
    → IsRoster cs
    → get_client_by_uuid uuid s ≡ ok old
    → c.name ≡ old.name
    → c.uuid ≡ old.uuid
    → c.awg ≡ old.awg
    → IsSound (save_client now c s).1
save_client-IsSound now uuid c old s {cs} h r e n u a =
    let found : find_client_by uuid cs ≡ ok old =
      ground (arith, get_client_by_uuid-Shows uuid s h) in
    let key : old.uuid ≡ uuid = find_uuid uuid cs found in
    elim (save_client-Shows now c s h) [
      | inl (_, shows) ↦ record {
        clients = put_client (stamp now c) cs;
        shown = shows;
        roster =
            put_client-IsRoster (stamp now c) old cs r
              (ground (arith, stamp-same now c, found, key)) (ground (arith, stamp-same now c))
              (ground (arith, stamp-same now c)) (ap ip_of ((stamp-same now c).2 ∙ a));
      }
      | inr (_, same) ↦ rw same (record { clients = cs; shown = h; roster = r })
    ]

module _ (x25519 : Bytes → Option Bytes) where
  add_client_named-IsSound :
      (name : Text) (protocols : List Text) (d : Draw) (s : Store) {cs : List Client}
      → Shows s cs
      → IsRoster cs
      → contains (uuids_of cs) d.uuid ≡ false
      → IsSound (add_client_named x25519 name protocols d s).1
  add_client_named-IsSound name protocols d s {cs} h r new =
      elim (add_client_named_lem x25519 name protocols d s h) [
        | inl (c, _, made, shows) ↦
            let c' = stamp d.now c in
            let same = stamp-same d.now c in
            let fresh : contains (uuids_of cs) c'.uuid ≡ false =
              ground (arith, same, made.identity) in
            record {
              clients = cs ++ c' ∷ [];
              shown = rw (← put_client_new c' cs fresh) shows;
              roster =
                  append-IsRoster c' cs r
                    (ground (arith, same, made.named, made.new_name, has_name_lem name cs)) fresh
                    (ground (arith, ap ip_of same.2, made.unshared));
            }
        | inr (_, same) ↦ rw same (record { clients = cs; shown = h; roster = r })
      ]

-- A step that only reads before it stops leaves the store as it was.
module _ (uuid : Text) (s : Store) {cs : List Client} (h : Shows s cs) (r : IsRoster cs) where
  rotate-IsSound : (bytes : Bytes) (now : ℕ) → IsSound (rotate_client_sub uuid bytes now s).1
  unfolding rotate_client_sub wrap
  rotate-IsSound bytes now = elim (Result-cases (get_client_by_uuid uuid s)) [
    | inl (c, e) ↦ rw e (save_client-IsSound now uuid _ c s h r e refl refl refl)
    | inr (x, e) ↦ rw e (record { clients = cs; shown = h; roster = r })
  ]

  inherit-IsSound : (now : ℕ) → IsSound (inherit_client_protocols uuid now s).1
  unfolding inherit_client_protocols wrap
  inherit-IsSound now = elim (Result-cases (get_client_by_uuid uuid s)) [
    | inl (c, e) ↦ rw e (save_client-IsSound now uuid _ c s h r e refl refl refl)
    | inr (x, e) ↦ rw e (record { clients = cs; shown = h; roster = r })
  ]

  update-IsSound :
      (protocols : List Text) (now : ℕ) → IsSound (update_client_protocols uuid protocols now s).1
  unfolding update_client_protocols wrap
  update-IsSound protocols now = elim (Result-cases (cleaned protocols)) [
    | inl (ps, q) ↦ elim (Result-cases (get_client_by_uuid uuid s)) [
      | inl (c, e) ↦ rw q (rw e (save_client-IsSound now uuid _ c s h r e refl refl refl))
      | inr (x, e) ↦ rw q (rw e (record { clients = cs; shown = h; roster = r }))
    ]
    | inr (x, q) ↦ rw q (record { clients = cs; shown = h; roster = r })
  ]

  delete-IsSound : IsSound (delete_client_by_uuid uuid s).1
  unfolding delete_client_by_uuid wrap
  delete-IsSound = elim (Result-cases (get_client_by_uuid uuid s)) [
    | inl (c, e) ↦ rw e (elim (delete_client-Shows uuid s h) [
      | inl (_, shows) ↦ record {
        clients = remove_client uuid cs;
        shown = shows;
        roster = remove-IsRoster uuid cs r;
      }
      | inr (_, same) ↦ rw same (record { clients = cs; shown = h; roster = r })
    ])
    | inr (x, e) ↦ rw e (record { clients = cs; shown = h; roster = r })
  ]

-- From a store whose clients can be read and share no name, uuid or address, every client
-- operation leads, on each of its branches, to such a store, if the uuid that AddClient draws is
-- new.
pub Step-IsSound :
    {x25519 : Bytes → Option Bytes} {s t : Store} (sound : IsSound s)
    → Step x25519 s sound.clients t
    → IsSound t
Step-IsSound {x25519} {s} sound (adds name protocols d new) =
    add_client_named-IsSound x25519 name protocols d s sound.shown sound.roster new
Step-IsSound {s} sound (rotates uuid bytes now) =
    rotate-IsSound uuid s sound.shown sound.roster bytes now
Step-IsSound {s} sound (deletes uuid) = delete-IsSound uuid s sound.shown sound.roster
Step-IsSound {s} sound (updates uuid protocols now) =
    update-IsSound uuid s sound.shown sound.roster protocols now
Step-IsSound {s} sound (inherits_set uuid now) = inherit-IsSound uuid s sound.shown sound.roster now
Step-IsSound {s} sound (breaks broken) = record {
  clients = sound.clients;
  shown = sound.shown;
  roster = sound.roster;
}
