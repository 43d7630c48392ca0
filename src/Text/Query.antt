-- ===== src/Text/Query.antt =====
-- `url.Values`: `Set` and `Encode`.
use uncut_core.Base.{ltb, eqb, if◌then◌else◌, Bool, true, false, ◌&&◌, ◌||◌, List, [], ◌∷◌, ◌++◌}
use uncut_core.Text.{Text}
use uncut_core.Text.Encode.{query_escape}
use uncut_core.Text.Split.{join}

-- The order of the keys; that of the bytes of UTF-8 is the order of the code points.
text_leb : Text → Text → Bool
text_leb [] t = true
text_leb (c ∷ s) [] = false
text_leb (c ∷ s) (d ∷ t) = ltb c d || (eqb c d && text_leb s t)

insert_sorted : Text × Text → List (Text × Text) → List (Text × Text)
insert_sorted kv [] = kv ∷ []
insert_sorted (k, v) ((j, w) ∷ m) =
    let rest = insert_sorted (k, v) m in if text_leb k j then (k, v) ∷ (j, w) ∷ m else (j, w) ∷ rest

sort : List (Text × Text) → List (Text × Text)
sort [] = []
sort (kv ∷ m) = insert_sorted kv (sort m)

pairs : List (Text × Text) → List Text
pairs [] = []
pairs ((k, v) ∷ m) = (query_escape k ++ (b'=' ∷ query_escape v)) ∷ pairs m

-- Each key is set once.
unfoldable pub encode_query : List (Text × Text) → Text
unfolding text_leb insert_sorted sort pairs
encode_query m = join (b'&' ∷ []) (pairs (sort m))
