-- ===== src/Ingestion/Canonical/Cells.antt =====
-- datasets/run.py: `parse_timestamp`, and the cells of a row.
use vault_recon_ai.Prelude.{
  Bool, List, Option, String, [], if◌then◌else◌, leb, map, none, or_default, some, true, ◌&&◌, ◌++◌,
  ◌==◌, ◌∷◌,
}
use vault_recon_ai.Dict.{dict_get}
use vault_recon_ai.Float.{Float}
use vault_recon_ai.Ingestion.Csv.Cells.{Row, float_of, get_cell, given_text}
use vault_recon_ai.Prelude.Int.{ℤ}
use vault_recon_ai.Result.{Result, of_option, ok, raised, ◌>>=◌}
use vault_recon_ai.Text.{Text, codes}
use vault_recon_ai.Value.{Fields, Value}
use vault_recon_ai.Vault.Window.{int_of_text}

-- What the loader takes from Python: the rows of a file in a directory (no row longer than the
-- header), or none where it is not there; datetime.fromisoformat(text).timestamp(), which may
-- raise; int(time.time()).
pub record CanonicalLibrary : Type 0 where
  pub read : Text → String → Option (List Row)
  pub from_iso : Text → Option ℤ
  pub now : ℤ

-- text.replace("Z", "+00:00")
unfoldable pub replace_z : Text → Text
replace_z [] = []
replace_z (c ∷ s) = if c == b'Z' then codes "+00:00" ++ replace_z s else c ∷ replace_z s

-- text.isdigit()
unfoldable pub all_digit : Text → Bool
all_digit [] = true
all_digit (c ∷ s) = leb 48 c && leb c 57 && all_digit s

-- `parse_timestamp` of a cell.
unfoldable pub parse_timestamp : CanonicalLibrary → Option Text → ℤ
unfolding given_text all_digit replace_z int_of_text
parse_timestamp lib val = elim (given_text val) [
  | none ↦ lib.now
  | some s ↦ or_default (if all_digit s then int_of_text s else lib.from_iso (replace_z s)) lib.now
]

-- A text field: a cell that is None does not pass pydantic's validation.
unfoldable pub text_cell : Option Text → Result Text
text_cell none = raised
text_cell (some s) = ok s

-- r[k], and r.get(k, other)
unfoldable pub cell_at : Row → String → Result Text
unfolding dict_get text_cell
cell_at r k = do v ← of_option (dict_get r (codes k)); text_cell v

unfoldable pub cell_or : Row → String → Text → Result Text
unfolding dict_get text_cell
cell_or r k other = elim (dict_get r (codes k)) [ none ↦ ok other | some v ↦ text_cell v ]

-- r.get(a) or r.get(b, other)
unfoldable pub cell_either : Row → String → String → Text → Result Text
unfolding get_cell given_text cell_or
cell_either r a b other = elim (given_text (get_cell r (codes a))) [
  | some s ↦ ok s
  | none ↦ cell_or r b other
]

module _ {F : Type 0} ⦃d : Float F⦄ where
  -- The row as `metadata`.
  unfoldable pub row_fields : Row → Fields F
  row_fields r = map (λ e. (e.0, elim e.1 [ none ↦ Value.null | some s ↦ Value.str s ])) r

  -- float(r.get(k, other))
  unfoldable pub float_cell_or : Row → String → F → Result F
  unfolding dict_get float_of
  float_cell_or r k other = elim (dict_get r (codes k)) [ none ↦ ok other | some v ↦ float_of v ]

  -- float(r.get(a) or r.get(b, other))
  unfoldable pub float_cell_either : Row → String → String → F → Result F
  unfolding get_cell given_text float_of float_cell_or
  float_cell_either r a b other = elim (given_text (get_cell r (codes a))) [
    | some s ↦ float_of (some s)
    | none ↦ float_cell_or r b other
  ]
