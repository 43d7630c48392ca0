-- ===== src/Transport/Laws.antt =====
-- internal/transport/transport.go: the subscription path of a generated transport.
use uncut_core.Base.{eqb, ℕ, ◌≡◌, refl, ap, ◌∙◌, true, false, [], ◌∷◌, ◌++◌, arith}
use uncut_core.Text.{Text, codes, every}
use uncut_core.Text.Search.{strip_prefix, has_prefix, replace_from, replace_all}
use uncut_core.Text.Split.{Lacks}
use uncut_core.Transport.{hash_token, RandomPaths, generate, is_safe, safe, sub_path}

-- The characters of a token, which `safe` leaves alone.
abbrev pub IsToken : Text → Type 0
IsToken hash = every is_safe hash ≡ true

safe_id : (hash : Text) → IsToken hash → safe hash ≡ hash
unfolding safe
safe_id [] h = refl
safe_id (c ∷ s) h = ground (arith, safe_id s, h)

no_token : (c : ℕ) (s : Text) → eqb c b'{' ≡ false → has_prefix hash_token (c ∷ s) ≡ false
unfolding has_prefix strip_prefix hash_token
no_token c s h = ground (arith, h)

-- Nothing is replaced before the token.
replace_all-append :
    (new p s : Text)
    → Lacks b'{' p
    → replace_from hash_token new 0 (p ++ s) ≡ p ++ replace_from hash_token new 0 s
unfolding replace_from
replace_all-append new [] s l = refl
replace_all-append new (c ∷ p) s l =
    ground (arith, l, no_token c (p ++ s), replace_all-append new p s)

replace_all-token :
    (new : Text) → replace_from hash_token new 0 (hash_token ++ codes ".bin") ≡ new ++ codes ".bin"
unfolding replace_from has_prefix strip_prefix hash_token
replace_all-token new = refl

-- Where the drawn text for the subscriptions has no brace, the path of a token in a generated
-- transport is that text, the token and the extension.
pub sub_path-generate :
    (r : RandomPaths) (hash : Text)
    → Lacks b'{' r.sub
    → IsToken hash
    → sub_path (generate r) hash ≡ b'/' ∷ (r.sub ++ (b'/' ∷ (hash ++ codes ".bin")))
unfolding sub_path generate replace_all
sub_path-generate r hash l t =
    let end = hash_token ++ codes ".bin" in
    replace_all-append (safe hash) (b'/' ∷ r.sub) (b'/' ∷ end) (ground (arith, l))
    ∙ ap (λ rest. b'/' ∷ (r.sub ++ rest))
        (replace_all-append (safe hash) (b'/' ∷ []) end refl
          ∙ ap (λ rest. b'/' ∷ rest) (replace_all-token (safe hash)))
    ∙ ap (λ token. b'/' ∷ (r.sub ++ (b'/' ∷ (token ++ codes ".bin")))) (safe_id hash t)
