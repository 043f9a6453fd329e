-- ===== src/Ingestion/Csv/Cells.antt =====
-- ingestion/adapters/generic_csv.py: the adapter, and the cells of a row.
use vault_recon_ai.Prelude.{
  List, Option, String, [], if◌then◌else◌, is_empty, map, none, or_default, or_else, some, ◌&&◌,
  ◌==◌, ◌∷◌,
}
use vault_recon_ai.Dict.{Dict, dict_get}
use vault_recon_ai.Float.{Float}
use vault_recon_ai.Prelude.Int.{ℤ}
use vault_recon_ai.Result.{Result, of_option, ok, raised, ◌>>=◌}
use vault_recon_ai.Text.{Text, codes, upper}

-- A row of csv.DictReader; a short row has None behind its end.
abbrev pub Row : Type 0
Row = Dict (Option Text)

-- What the adapter takes from Python: the rows of a file, or none where it is not there; int(x) of
-- a float, which raises at a NaN and at an infinity; and the texts of a row and of its error.
pub record CsvLibrary (F : Type 0) : Type 0 where
  pub read : Text → Option (List Row)
  pub truncate : F → Option ℤ
  pub row_text : Row → Text
  pub error_text : Text → Row → Text

pub record GenericCsvAdapter : Type 0 where
  pub source_name : Text
  pub file_path : Option Text
  pub record_type : Option Text
  pub column_mapping : Dict Text
  pub file_paths : Dict Text
  pub column_mappings : Dict (Dict Text)

-- d.get(k) where the value may be None.
unfoldable pub get_cell : Row → Text → Option Text
unfolding dict_get
get_cell m k = elim (dict_get m k) [ none ↦ none | some v ↦ v ]

-- {target: row.get(source) for target, source in mapping.items()}
unfoldable pub mapped_row : Dict Text → Row → Row
unfolding get_cell
mapped_row mapping row = map (λ e. (e.0, get_cell row e.1)) mapping

-- bool(s) keeps a text that is not empty.
unfoldable pub given_text : Option Text → Option Text
given_text none = none
given_text (some s) = if is_empty s then none else some s

-- mapped.get(k) or default
unfoldable pub text_or : Row → String → String → Text
unfolding get_cell given_text
text_or m k other = or_default (given_text (get_cell m (codes k))) (codes other)

-- str(mapped[k]); str(None) is "None".
unfoldable pub text_at : Row → String → Result Text
unfolding dict_get
text_at m k = do v ← of_option (dict_get m (codes k)); ok (or_default v (codes "None"))

-- str(mapped.get(a) or mapped.get(b) or mapped[c])
unfoldable pub text_at_one : Row → String → String → String → Result Text
unfolding get_cell given_text text_at
text_at_one m a b c =
    elim (or_else (given_text (get_cell m (codes a))) (given_text (get_cell m (codes b)))) [
      | some s ↦ ok s
      | none ↦ text_at m c
    ]

-- s.rstrip("S")
unfoldable pub rstrip_s : Text → Text
rstrip_s [] = []
rstrip_s (c ∷ s) = let rest = rstrip_s s in if c == b'S' && is_empty rest then [] else c ∷ rest

unfoldable pub normal_type : Text → Text
unfolding rstrip_s upper
normal_type record_type = rstrip_s (upper record_type)

module _ {F : Type 0} ⦃d : Float F⦄ where
  open d use {of_text}

  -- float(x), of a text; float(None) raises.
  unfoldable pub float_of : Option Text → Result F
  float_of none = raised
  float_of (some s) = of_option (of_text s)

  -- float(mapped[k])
  unfoldable pub float_at : Row → String → Result F
  unfolding dict_get float_of
  float_at m k = do v ← of_option (dict_get m (codes k)); float_of v

  -- float(mapped.get(k) or other)
  unfoldable pub float_or : Row → String → F → Result F
  unfolding given_text get_cell float_of
  float_or m k other = elim (given_text (get_cell m (codes k))) [
    | none ↦ ok other
    | some s ↦ float_of (some s)
  ]
