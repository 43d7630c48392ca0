-- ===== src/Nodeops/Daemon/Laws.antt =====
-- internal/nodeops/daemon.go: which children a rebuild restarts.
use uncut_core.Base.{
  eqb, if◌then◌else◌, Bool-cases, Option-cases, Eq, ◌==◌, contains, contains-append, Distinct,
  Distinct-snoc, Map, lookup, ℕ, ◌≡◌, refl, ap, ◌∙◌, inl, inr, Bool, true, false, not, ◌&&◌, ◌||◌,
  Option, none, some, List, [], ◌∷◌, arith,
}
use uncut_core.Text.{Text, Text-discrete, text_eq}
use uncut_core.Supervisor.{ProcessSpec, Supervisor, store_at}
use uncut_core.Supervisor.Control.{same_texts, same_spec, respec_at, respec}
use uncut_core.Nodeops.Daemon.{with_changed, respec_all}

pub fields_discrete : Discrete (List (List Text))
fields_discrete = hlevel Text-discrete

instance abbrev pub fields_eq : Eq (List (List Text))
fields_eq = record { dec = fields_discrete }

-- What a specification says, but for the name.
abbrev pub fields : ProcessSpec → List (List Text)
fields spec =
    (spec.command ∷ spec.dir ∷ spec.log_path ∷ spec.probe_addr ∷ spec.probe_sni ∷ [])
    ∷ spec.args
    ∷ []

abbrev pub differs_at : ProcessSpec → Supervisor → Option ℕ → Bool
differs_at spec sup none = false
differs_at spec sup (some a) = not (fields (sup.objects a).spec == fields spec)

-- A process is registered under the name of the specification, with other fields.
abbrev pub differs : ProcessSpec → Supervisor → Bool
differs spec sup = differs_at spec sup (lookup spec.name sup.processes)

-- The child of that name is registered with other fields than one of the specifications has, which
-- replace the registered ones in their order.
unfoldable pub changed_in : List ProcessSpec → Supervisor → Text → Bool
changed_in [] sup name = false
changed_in (spec ∷ specs) sup name =
    (differs spec sup && spec.name == name) || changed_in specs (respec spec sup).1 name

same_texts_refl : (xs : List Text) → same_texts xs xs ≡ true
same_texts_refl [] = refl
same_texts_refl (x ∷ xs) = ground (arith, same_texts_refl xs)

same_texts-equal : (xs ys : List Text) → same_texts xs ys ≡ true → xs ≡ ys
same_texts-equal [] [] h = refl
same_texts-equal [] (y ∷ ys) h = cc
same_texts-equal (x ∷ xs) [] h = cc
same_texts-equal (x ∷ xs) (y ∷ ys) h = ground (arith, same_texts-equal xs ys)

same_spec_lem : (a b : ProcessSpec) → same_spec a b ≡ (fields a == fields b)
unfolding same_spec
same_spec_lem a b = ground (arith, same_texts-equal a.args b.args, same_texts_refl a.args)

respec-differs : (spec : ProcessSpec) (sup : Supervisor) → (respec spec sup).0 ≡ differs spec sup
unfolding respec respec_at
respec-differs spec sup = elim (Option-cases (lookup spec.name sup.processes)) [
  | inl e ↦ rw e refl
  | inr (a, e) ↦ rw e (ground (arith, same_spec_lem (sup.objects a).spec spec))
]

or_shift : (a b c : Bool) {ab : Bool} → ab ≡ (a || b) → (ab || c) ≡ (a || (b || c))
or_shift a b c h = ground (arith, h)

with_changed-contains :
    (changed : Bool) (child : Text) (restart : List Text) (name : Text)
    → contains (with_changed changed child restart) name
      ≡ (contains restart name || (changed && child == name))
unfolding with_changed
with_changed-contains changed child restart name =
    ground (arith, contains-append restart (child ∷ []) name)

with_changed-Distinct :
    (changed : Bool) (child : Text) (restart : List Text)
    → Distinct restart
    → Distinct (with_changed changed child restart)
unfolding with_changed
with_changed-Distinct changed child restart u =
    elim (Bool-cases (changed && not (contains restart child))) [
      | inl e ↦ rw e (Distinct-snoc restart child u (ground (arith, e)))
      | inr e ↦ rw e u
    ]

respec_all-contains :
    (specs : List ProcessSpec) (restart : List Text) (sup : Supervisor) (name : Text)
    → contains (respec_all specs restart sup).0 name
      ≡ (contains restart name || changed_in specs sup name)
unfolding respec_all changed_in
respec_all-contains [] restart sup name = ground arith
respec_all-contains (spec ∷ specs) restart sup name =
    let (changed, sup') = respec spec sup in
    respec_all-contains specs (with_changed changed spec.name restart) sup' name
    ∙ or_shift (contains restart name) (differs spec sup && spec.name == name)
        (changed_in specs sup' name)
        (with_changed-contains changed spec.name restart name
          ∙ ap (λ d. contains restart name || (d && spec.name == name)) (respec-differs spec sup))

respec_all-Distinct :
    (specs : List ProcessSpec) (restart : List Text) (sup : Supervisor)
    → Distinct restart
    → Distinct (respec_all specs restart sup).0
unfolding respec_all
respec_all-Distinct [] restart sup u = u
respec_all-Distinct (spec ∷ specs) restart sup u =
    respec_all-Distinct specs (with_changed (respec spec sup).0 spec.name restart)
      (respec spec sup).1 (with_changed-Distinct (respec spec sup).0 spec.name restart u)

-- A rebuild restarts the children it was asked to and those whose specification has changed, and
-- no others; none twice, if the request names none twice.
pub respec_all_lem :
    (specs : List ProcessSpec) (restart : List Text) (sup : Supervisor)
    → Distinct restart
    → ((name : Text)
        → contains (respec_all specs restart sup).0 name
          ≡ (contains restart name || changed_in specs sup name))
      × Distinct (respec_all specs restart sup).0
respec_all_lem specs restart sup u =
    (λ name. respec_all-contains specs restart sup name, respec_all-Distinct specs restart sup u)

abbrev is_at : Option ℕ → ℕ → Bool
is_at none b = false
is_at (some a) b = eqb b a

-- The fields of each object once every specification stands at the process of its name.
abbrev pub with_fields :
    List ProcessSpec → Map Text ℕ → (ℕ → List (List Text)) → ℕ → List (List Text)
with_fields [] processes f = f
with_fields (spec ∷ specs) processes f =
    with_fields specs processes
      (λ b. if is_at (lookup spec.name processes) b then fields spec else f b)

abbrev fields_at : Supervisor → ℕ → List (List Text)
fields_at sup b = fields (sup.objects b).spec

same-fields : (a b : ProcessSpec) → same_spec a b ≡ true → fields a ≡ fields b
same-fields a b h = ground (arith, h, same_spec_lem a b)

kept_fields :
    (spec : ProcessSpec) (a : ℕ) (sup : Supervisor) (b : ℕ)
    → fields_at sup a ≡ fields spec
    → fields_at sup b ≡ (if eqb b a then fields spec else fields_at sup b)
kept_fields spec a sup b h = elim (Bool-cases (eqb b a)) [
  | inl e ↦ let same : b ≡ a = ground (arith, e) in rw e (ap (fields_at sup) same ∙ h)
  | inr e ↦ rw e refl
]

respec_at-fields :
    (spec : ProcessSpec) (a : ℕ) (sup : Supervisor) (b : ℕ)
    → fields_at (respec_at spec (some a) sup).1 b
      ≡ (if eqb b a then fields spec else fields_at sup b)
unfolding respec_at store_at
respec_at-fields spec a sup b = elim (Bool-cases (same_spec (sup.objects a).spec spec)) [
  | inl same ↦ rw same (kept_fields spec a sup b (same-fields (sup.objects a).spec spec same))
  | inr other ↦ rw other (elim (Bool-cases (eqb b a)) [ inl e ↦ rw e refl | inr e ↦ rw e refl ])
]

respec-fields :
    (spec : ProcessSpec) (sup : Supervisor) (b : ℕ)
    → fields_at (respec spec sup).1 b
      ≡ (if is_at (lookup spec.name sup.processes) b then fields spec else fields_at sup b)
unfolding respec respec_at store_at
respec-fields spec sup b = elim (Option-cases (lookup spec.name sup.processes)) [
  | inl e ↦ rw e refl
  | inr (a, e) ↦ rw e (respec_at-fields spec a sup b)
]

respec-processes :
    (spec : ProcessSpec) (sup : Supervisor) → (respec spec sup).1.processes ≡ sup.processes
unfolding respec respec_at
respec-processes spec sup = elim (Option-cases (lookup spec.name sup.processes)) [
  | inl e ↦ rw e refl
  | inr (a, e) ↦ rw e (elim (Bool-cases (same_spec (sup.objects a).spec spec)) [
    | inl same ↦ rw same refl
    | inr other ↦ rw other refl
  ])
]

respec_all-fields_from :
    (specs : List ProcessSpec) (restart : List Text) (sup : Supervisor)
    → (f : ℕ → List (List Text)) → ((b : ℕ) → fields_at sup b ≡ f b)
    → (b : ℕ) → fields_at (respec_all specs restart sup).1 b ≡ with_fields specs sup.processes f b
unfolding respec_all
respec_all-fields_from [] restart sup f h b = h b
respec_all-fields_from (spec ∷ specs) restart sup f h b =
    let found = lookup spec.name sup.processes in
    let next : ℕ → List (List Text) = λ c. if is_at found c then fields spec else f c in
    respec_all-fields_from specs (with_changed (respec spec sup).0 spec.name restart)
      (respec spec sup).1 next
      (λ c. respec-fields spec sup c ∙ ap (λ e. if is_at found c then fields spec else e) (h c)) b
    ∙ ap (λ p. with_fields specs p next b) (respec-processes spec sup)

pub respec_all-fields :
    (specs : List ProcessSpec) (restart : List Text) (sup : Supervisor) (b : ℕ)
    → fields (((respec_all specs restart sup).1.objects b).spec)
      ≡ with_fields specs sup.processes (λ c. fields (sup.objects c).spec) b
respec_all-fields specs restart sup b =
    respec_all-fields_from specs restart sup (fields_at sup) (λ c. refl) b
