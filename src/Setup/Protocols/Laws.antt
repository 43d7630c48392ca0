-- ===== src/Setup/Protocols/Laws.antt =====
-- internal/setup/setup.go: what is read back of a stored protocol list, and the merge of the
-- defaults at the start of the daemon.
use uncut_core.Base.{
  ltb, Bool-cases, length, All, All-append, ◌==◌, contains, contains-append, All-contains, Result,
  ok, err, ◌≡◌, refl, ◌≢◌, inl, inr, Bool, true, false, not, ◌&&◌, ◌||◌, List, [], ◌∷◌, ◌++◌, map,
  append-nil, arith,
}
use uncut_core.Text.{Text, Text-discrete, text_eq}
use uncut_core.Text.Trim.{trim_space}
use uncut_core.Text.Split.{join, Lacks}
use uncut_core.Config.Protocols.{
  xhttp_stealth, vless_ws, vless_httpupgrade, vless_grpc, vless_reality, hysteria2, amneziawg,
  default_protocols, is_valid_protocol,
}
use uncut_core.Config.Protocols.Cleaning.{IsKnown, known-trim_space, known-not_blank}
use uncut_core.Store.{select_setting, DbError, Store, set_setting}
use uncut_core.Store.Laws.{get_setting-set_setting}
use uncut_core.Setup.{get, stored}
use uncut_core.Setup.Protocols.{
  split_list, missing_from, merge_missing, protocols_key, protocols_explicit_key, explicit_mark,
  comma, save_merged, merge_default_protocols,
}
use uncut_core.Setup.Protocols.Entries.{IsEntry, split_list-join, split_list-IsEntry}

missing_from-All :
    (P : Text → Type 0) (seen want : List Text) → All P want → All P (missing_from seen want)
unfolding missing_from
missing_from-All P seen [] a = tt
missing_from-All P seen (p ∷ want) a = elim (Bool-cases (contains seen p)) [
  | inl e ↦ rw e (missing_from-All P seen want a.1)
  | inr e ↦ rw e (a.0, missing_from-All P (p ∷ seen) want a.1)
]

-- The missing entries are those that are wanted and not yet there.
missing_from-members :
    (seen want : List Text) (p : Text)
    → (contains seen p || contains (missing_from seen want) p)
      ≡ (contains seen p || contains want p)
unfolding missing_from
missing_from-members seen [] p = refl
missing_from-members seen (q ∷ want) p =
    ground (arith, missing_from-members seen want p, missing_from-members (q ∷ seen) want p)

map-trim_space : (ps : List Text) → All IsEntry ps → map trim_space ps ≡ ps
map-trim_space [] a = refl
map-trim_space (p ∷ ps) a = ground (arith, a.0.trimmed, map-trim_space ps a.1)

default-Lacks : All (Lacks b',') default_protocols
unfolding default_protocols xhttp_stealth vless_ws vless_httpupgrade vless_grpc vless_reality
    hysteria2 amneziawg
default-Lacks = (refl, (refl, (refl, (refl, (refl, (refl, (refl, tt)))))))

pub known-IsEntry : (p : Text) → IsKnown p → IsEntry p
unfolding is_valid_protocol
known-IsEntry p k = record {
  no_comma = All-contains (Lacks b',') default_protocols p default-Lacks k;
  trimmed = known-trim_space p k;
  not_blank = known-not_blank p k;
}

pub knowns-IsEntry : (ps : List Text) → All IsKnown ps → All IsEntry ps
knowns-IsEntry [] k = tt
knowns-IsEntry (p ∷ ps) k = (known-IsEntry p k.0, knowns-IsEntry ps k.1)

defaults-IsKnown : All IsKnown default_protocols
unfolding is_valid_protocol default_protocols xhttp_stealth vless_ws vless_httpupgrade vless_grpc
    vless_reality hysteria2 amneziawg Text-discrete
defaults-IsKnown = (refl, (refl, (refl, (refl, (refl, (refl, (refl, tt)))))))

append-empty : (ps qs : List Text) → length qs ≡ 0 → ps ++ qs ≡ ps
append-empty ps [] h = append-nil ps
append-empty ps (q ∷ qs) h = ground (arith, h)

append-ne : (ps qs : List Text) → ltb 0 (length qs) ≡ true → ps ++ qs ≢ []
append-ne [] [] h e = ground arith
append-ne [] (q ∷ qs) h e = cc
append-ne (p ∷ ps) qs h e = cc

-- What the stored list reads as.
unfoldable pub protocols_of : Store → List Text
protocols_of s = split_list (get protocols_key s)

protocols_of-eq : (s : Store) → protocols_of s ≡ split_list (get protocols_key s)
unfolding protocols_of
protocols_of-eq s = refl

pub get-set_setting :
    (key v : Text) (s : Store)
    → (set_setting key v s).0 ≡ ok tt
    → s.broken (select_setting key) ≡ false
    → get key (set_setting key v s).1 ≡ v
unfolding get
get-set_setting key v s w r = ground (arith, get_setting-set_setting key key v s w r)

abbrev pub is_explicit : Store → Bool
is_explicit s = get protocols_explicit_key s == explicit_mark

merge_missing-IsEntry :
    (base : List Text) → All IsEntry base → All IsEntry (merge_missing base default_protocols).0
unfolding merge_missing
merge_missing-IsEntry base e =
    All-append IsEntry base (missing_from (map trim_space base) default_protocols) e (
      missing_from-All IsEntry (map trim_space base) default_protocols
        (knowns-IsEntry default_protocols defaults-IsKnown))

pub stored-ok :
    (r : Result DbError (Unit {0}) × Store)
    → ((stored {A = Unit {0}} tt r).1 ≡ r.1)
      × ((stored {A = Unit {0}} tt r).0 ≡ ok tt → r.0 ≡ ok tt)
stored-ok (ok tt, s) = (refl, λ _. refl)
stored-ok (err e, s) = (refl, λ h. ground (arith, h))

merge_missing_members :
    (base : List Text)
    → All IsEntry base
    → (p : Text)
    → contains (merge_missing base default_protocols).0 p
      ≡ (contains base p || contains default_protocols p)
unfolding merge_missing
merge_missing_members base e p = ground (
  arith,
  map-trim_space base e,
  missing_from-members base default_protocols p,
  contains-append base (missing_from base default_protocols) p,
)

save_merged_lem :
    (base : List Text) (s : Store)
    → All IsEntry base
    → protocols_of s ≡ base
    → (save_merged (merge_missing base default_protocols) s).0 ≡ ok tt
    → s.broken (select_setting protocols_key) ≡ false
    → protocols_of (save_merged (merge_missing base default_protocols) s).1
      ≡ (merge_missing base default_protocols).0
unfolding save_merged protocols_of merge_missing
save_merged_lem base s e b w r =
    let missing = missing_from (map trim_space base) default_protocols in
    elim (Bool-cases (ltb 0 (length missing))) [
      | inl more ↦
          let save = set_setting protocols_key (join comma (base ++ missing)) s in
          ground (
            arith,
            more,
            stored-ok save,
            get-set_setting protocols_key (join comma (base ++ missing)) s,
            split_list-join (base ++ missing) (append-ne base missing more)
                (merge_missing-IsEntry base e),
          )
      | inr none_missing ↦ ground (arith, none_missing, b, append-empty base missing)
    ]

merged_lem :
    (s : Store)
    → (save_merged (merge_missing (split_list (get protocols_key s)) default_protocols) s).0 ≡ ok tt
    → s.broken (select_setting protocols_key) ≡ false
    → (p : Text)
    → contains
        (protocols_of
          (save_merged (merge_missing (split_list (get protocols_key s)) default_protocols) s).1)
        p
      ≡ (contains (protocols_of s) p || contains default_protocols p)
merged_lem s w r p =
    let base = split_list (get protocols_key s) in
    let e = split_list-IsEntry (get protocols_key s) in
    rw (save_merged_lem base s e (protocols_of-eq s) w r)
      (rw (protocols_of-eq s) (merge_missing_members base e p))

-- After a merge that returns no error, and where reading the list does not fail, the stored list
-- has the names that it had and, unless it is marked explicit, the default protocols.
pub merge_default_protocols_lem :
    (s : Store)
    → (merge_default_protocols s).0 ≡ ok tt
    → s.broken (select_setting protocols_key) ≡ false
    → (p : Text)
    → contains (protocols_of (merge_default_protocols s).1) p
      ≡ (contains (protocols_of s) p || (not (is_explicit s) && contains default_protocols p))
unfolding merge_default_protocols
merge_default_protocols_lem s w r p = elim (Bool-cases (is_explicit s)) [
  | inl e ↦ rw e (ground arith)
  | inr e ↦ rw e (merged_lem s (rw e at w) r p)
]
