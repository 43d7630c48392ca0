-- ===== src/Examples/Core.antt =====
-- Client operations and tunnel addresses at concrete inputs.
use uncut_core.Base.{contains, ok, err, ℕ, ◌≤◌, ◌≡◌, refl, ◌⊎◌, false, some, List, [], ◌∷◌}
use uncut_core.Text.{Text, codes, Text-discrete, text_eq}
use uncut_core.Text.Decimal.{digits, print}
use uncut_core.Text.Encode.{Bytes}
use uncut_core.Config.{Client}
use uncut_core.Store.{with_hash, scan_client, scan_rows}
use uncut_core.Store.Laws.{stamp, put_client, Shows}
use uncut_core.Core.{CoreError}
use uncut_core.Core.Awg.{awg_ip, next_from, next_awg_address, used_awg_addresses}
use uncut_core.Core.Awg.Laws.{IsFirstFree, next_awg_address_ok, byte_at}
use uncut_core.Core.Clients.{add_client_named}
use uncut_core.Core.Clients.Laws.{Created, add_client_named_lem}
use uncut_core.Core.Clients.Roster.{uuids_of, IsRoster}
use uncut_core.Core.Clients.Steps.{IsSound, adds, Step-IsSound}
use uncut_core.Examples.Data.{alice, a_store, toy_curve, a_draw}

one_shown : Shows a_store (alice ∷ [])
unfolding scan_rows scan_client with_hash
one_shown = refl

alone : IsRoster (alice ∷ [])
unfolding used_awg_addresses
alone = record { names = (refl, tt); uuids = (refl, tt); addresses = (refl, tt) }

abbrev sound : IsSound a_store
sound = record { clients = alice ∷ []; shown = one_shown; roster = alone }

new_uuid : contains (uuids_of (alice ∷ [])) a_draw.uuid ≡ false
unfolding Text-discrete
new_uuid = refl

Step-IsSound_example : IsSound (add_client_named toy_curve (codes "bob") [] a_draw a_store).1
Step-IsSound_example =
    Step-IsSound {x25519 = toy_curve} sound (adds (codes "bob") [] a_draw new_uuid)

add_client_named_lem_example :
    ((c : Client) × ((add_client_named toy_curve (codes "bob") [] a_draw a_store).0 ≡ ok c)
      × Created (codes "bob") a_draw (alice ∷ []) c
      × Shows
          (add_client_named toy_curve (codes "bob") [] a_draw a_store).1
          (put_client (stamp a_draw.now c) (alice ∷ [])))
    ⊎ (((e : CoreError) × ((add_client_named toy_curve (codes "bob") [] a_draw a_store).0 ≡ err e))
        × ((add_client_named toy_curve (codes "bob") [] a_draw a_store).1 ≡ a_store))
add_client_named_lem_example =
    add_client_named_lem toy_curve (codes "bob") [] a_draw a_store one_shown

abbrev one_used : List Text
one_used = codes "10.8.0.2/32" ∷ []

next_is_three : next_awg_address one_used ≡ ok (awg_ip 3)
unfolding next_awg_address next_from awg_ip print digits Text-discrete
next_is_three = refl

next_awg_address_ok_example : (m : ℕ) × (m ≤ 254) × (awg_ip 3 ≡ awg_ip m) × IsFirstFree 2 m one_used
next_awg_address_ok_example = next_awg_address_ok one_used next_is_three

abbrev a_key_pair : Bytes
a_key_pair =
    255 ∷ 1 ∷ 2 ∷ 3 ∷ 4 ∷ 5 ∷ 6 ∷ 7 ∷ 8 ∷ 9 ∷ 10 ∷ 11 ∷ 12 ∷ 13 ∷ 14 ∷ 15 ∷ 16 ∷ 17 ∷ 18 ∷ 19 ∷ 20
    ∷ 21 ∷ 22 ∷ 23 ∷ 24 ∷ 25 ∷ 26 ∷ 27 ∷ 28 ∷ 29 ∷ 30 ∷ 255 ∷ []

at_first : byte_at 0 a_key_pair ≡ some 255
at_first = refl

at_last : byte_at 31 a_key_pair ≡ some 255
at_last = refl
