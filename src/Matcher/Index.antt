-- ===== src/Matcher/Index.antt =====
-- recon/matcher.py: the maps that `reconcile_all` builds from the secondary indexes, so that an
-- order's entries need no scan of their own.
pub mod Lookup
pub mod Names
use mathlib.Core.List.{foldl}
use vault_recon_ai.Prelude.{
  List, Option, String, [], filter, if◌then◌else◌, is_empty, none, not, some, ◌++◌, ◌∷◌,
}
use vault_recon_ai.Dict.{Dict, dict_get, dict_set, list_or_empty}
use vault_recon_ai.Schemas.Keys.{index_prefix}
use vault_recon_ai.Text.{Text, codes, contains, join, last_part, split, text_eq}
use vault_recon_ai.Vault.{Vault, scan_prefix}

abbrev pub Entry : Type 0
Entry = Text × Text

-- Dict[str, Dict[str, List[Tuple[str, str]]]]
abbrev pub IndexMap : Type 0
IndexMap = Dict (Dict (List Entry))

-- parts[2:-2] and parts[-2], of what stands behind the first two parts.
unfoldable pub split_tail : List Text → Option (List Text × Text)
split_tail [] = none
split_tail (x ∷ []) = none
split_tail (x ∷ y ∷ []) = some ([], x)
split_tail (x ∷ y ∷ z ∷ r) = elim (split_tail (y ∷ z ∷ r)) [
  | none ↦ none
  | some (xs, t) ↦ some (x ∷ xs, t)
]

-- ":".join(parts[2:-2]) and parts[-2], if len(parts) >= 4.
unfoldable pub index_name : Text → Option (Text × Text)
unfolding split split_tail join
index_name key = elim (split b':' key) [
  | [] ↦ none
  | a ∷ rest ↦ elim rest [
    | [] ↦ none
    | b ∷ tail ↦ elim (split_tail tail) [ none ↦ none | some (xs, t) ↦ some (join b':' xs, t) ]
  ]
]

-- m.setdefault(name, {}).setdefault(kind, []).append(entry)
unfoldable pub add_entry : Text → Text → Entry → IndexMap → IndexMap
unfolding dict_get dict_set
add_entry name kind entry m =
    let inner = list_or_empty (dict_get m name) in
    dict_set name (dict_set kind (list_or_empty (dict_get inner kind) ++ entry ∷ []) inner) m

unfoldable pub index_entry : IndexMap → Entry → IndexMap
unfolding index_name add_entry
index_entry m (key, pk) = elim (index_name key) [
  | none ↦ m
  | some (name, kind) ↦ add_entry name kind (key, pk) m
]

-- The loops that fill `order_index_map` and `ref_index_map`.
unfoldable pub build_index : List Entry → IndexMap
unfolding index_entry
build_index = foldl index_entry []

-- m.get(name, {}).get(kind, [])
unfoldable pub indexes_of : IndexMap → Text → Text → List Entry
unfolding dict_get
indexes_of m name kind = list_or_empty (dict_get (list_or_empty (dict_get m name)) kind)

-- The loop that fills `txn_settle_map`.
unfoldable pub settle_entry : Dict (List Entry) → Entry → Dict (List Entry)
unfolding index_name dict_get dict_set
settle_entry m (key, pk) = elim (index_name key) [
  | none ↦ m
  | some (txn_id, kind) ↦
      if text_eq kind (codes "SETTLEMENT")
      then dict_set txn_id (list_or_empty (dict_get m txn_id) ++ (key, pk) ∷ []) m
      else m
]

unfoldable pub build_settle : List Entry → Dict (List Entry)
unfolding settle_entry
build_settle = foldl settle_entry []

-- An order's entries of one kind: from the map, or by a scan where no map is given.
unfoldable pub order_indexes : Vault → Option IndexMap → Text → String → List Entry
unfolding indexes_of scan_prefix
order_indexes db none order_id kind = scan_prefix db (index_prefix "ORDER" order_id kind)
order_indexes db (some m) order_id kind = indexes_of m order_id (codes kind)

-- The settlements of a payment: under its transaction, or else under its order.
unfoldable pub settle_indexes : Vault → Option (Dict (List Entry)) → Text → Text → List Entry
unfolding scan_prefix dict_get
settle_indexes db none txn_id order_id =
    let own = scan_prefix db (index_prefix "TXN" txn_id "SETTLEMENT") in
    if is_empty own then scan_prefix db (index_prefix "TXN" order_id "SETTLEMENT") else own
settle_indexes db (some m) txn_id order_id =
    let own = list_or_empty (dict_get m txn_id) in
    if is_empty own then list_or_empty (dict_get m order_id) else own

-- [p for p in entries if p[1].split(":")[-1] not in self.consumed_target_ids]
unfoldable pub unconsumed : List Text → List Entry → List Entry
unfolding contains last_part
unconsumed consumed = filter (λ e. not (contains consumed (last_part e.1)))
