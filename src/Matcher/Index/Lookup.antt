-- ===== src/Matcher/Index/Lookup.antt =====
-- recon/matcher.py: the maps of `reconcile_all` against the entries that they are built from.
use mathlib.Core.List.{append-nil, append_assoc, foldl}
use vault_recon_ai.Prelude.{
  Bool, List, [], arith, false, filter, if◌then◌else◌, none, refl, some, sym, true, ◌&&◌, ◌++◌, ◌∙◌,
  ◌∷◌, ◌≡◌,
}
use vault_recon_ai.Dict.{dict_get, dict_set, get-set, list_or_empty}
use vault_recon_ai.Matcher.Index.{
  Entry, IndexMap, add_entry, build_index, index_entry, index_name, indexes_of,
}
use vault_recon_ai.Text.{Text, text_eq, text_eq_iff}

-- The entry's key names this value and this kind.
abbrev pub in_index : Text → Text → Entry → Bool
in_index name kind e = elim (index_name e.0) [
  | none ↦ false
  | some (n, k) ↦ text_eq n name && text_eq k kind
]

added_entry :
    (m : IndexMap) (n k : Text) (e : Entry) (name kind : Text)
    → indexes_of (add_entry n k e m) name kind ≡ (
        if text_eq n name && text_eq k kind
        then indexes_of m name kind ++ e ∷ []
        else indexes_of m name kind)
unfolding indexes_of add_entry
added_entry m n k e name kind =
    let inner = list_or_empty (dict_get m n) in
    let kept = list_or_empty (dict_get inner k) ++ e ∷ [] in
    ground (
      arith,
      text_eq_iff n name,
      text_eq_iff k kind,
      get-set n name (dict_set k kept inner) m,
      get-set k kind kept inner,
    )

entry_added :
    (m : IndexMap) (e : Entry) (name kind : Text)
    → indexes_of (index_entry m e) name kind
      ≡ (if in_index name kind e then indexes_of m name kind ++ e ∷ [] else indexes_of m name kind)
unfolding index_entry
entry_added m (key, pk) name kind =
    elim (index_name key)
      as (λ o.
        indexes_of (elim o [ none ↦ m | some (n, k) ↦ add_entry n k (key, pk) m ]) name kind ≡ (
          if elim o [ none ↦ false | some (n, k) ↦ text_eq n name && text_eq k kind ]
          then indexes_of m name kind ++ (key, pk) ∷ []
          else indexes_of m name kind)) [
            | none ↦ refl
            | some (n, k) ↦ added_entry m n k (key, pk) name kind
          ]

-- An entry that is added to a list, or not, stands before the rest.
extended :
    (b : Bool) (xs ys zs : List Entry) (e : Entry)
    → ys ≡ (if b then xs ++ e ∷ [] else xs)
    → ys ++ zs ≡ xs ++ (if b then e ∷ zs else zs)
extended true xs ys zs e h = rw h (append_assoc xs (e ∷ []) zs)
extended false xs ys zs e h = rw h refl

build_from :
    (m : IndexMap) (es : List Entry) (name kind : Text)
    → indexes_of (foldl index_entry m es) name kind
      ≡ indexes_of m name kind ++ filter (in_index name kind) es
build_from m [] name kind = sym (append-nil _)
build_from m (e ∷ es) name kind =
    build_from (index_entry m e) es name kind
    ∙ extended (in_index name kind e) _ _ _ _ (entry_added m e name kind)

-- The map gives, for a value and a kind, exactly the entries of the scan whose keys name the two,
-- in the order of the scan.
pub build_index-filter :
    (es : List Entry) (name kind : Text)
    → indexes_of (build_index es) name kind ≡ filter (in_index name kind) es
unfolding build_index indexes_of
build_index-filter es name kind = build_from [] es name kind
