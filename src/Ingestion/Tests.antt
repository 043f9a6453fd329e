-- ===== src/Ingestion/Tests.antt =====
-- ingestion/adapters/generic_csv.py on a file of two rows.
use vault_recon_ai.Prelude.{[], length, refl, some, ◌+◌, ◌∷◌, ◌≡◌}
use vault_recon_ai.Float.Micro.{Micro, micro_float}
use vault_recon_ai.Ingestion.{NormalizedDataset, total_of}
use vault_recon_ai.Ingestion.Csv.{load_csv}
use vault_recon_ai.Ingestion.Csv.Cells.{CsvLibrary, GenericCsvAdapter, given_text, normal_type}
use vault_recon_ai.Ingestion.Csv.Rows.{adapter_rows, load_csv-accounted}
use vault_recon_ai.Result.{ok}
use vault_recon_ai.Text.{codes, contains, upper}

abbrev library : CsvLibrary Micro
library = record {
  read = λ path. some (
      ((codes "id", some (codes "P1")) ∷ (codes "total", some (codes "12.5")) ∷ [])
      ∷ ((codes "id", some (codes "P2")) ∷ (codes "total", some (codes "abc")) ∷ [])
      ∷ []);
  truncate = λ x. some x;
  row_text = λ row. [];
  error_text = λ rtype row. codes "could not convert string to float";
}

abbrev adapter : GenericCsvAdapter
adapter = record {
  source_name = codes "CSV";
  file_path = some (codes "a.csv");
  record_type = some (codes "payments");
  column_mapping =
      (codes "transaction_id", codes "id")
      ∷ (codes "order_id", codes "id")
      ∷ (codes "amount", codes "total")
      ∷ [];
  file_paths = [];
  column_mappings = [];
}

loaded_csv : (ds : NormalizedDataset Micro) × (load_csv library adapter ≡ ok ds)
unfolding load_csv micro_float
loaded_csv = (_, refl)

load_csv-accounted_example :
    total_of loaded_csv.0 + length loaded_csv.0.schema_failures ≡ adapter_rows library adapter
load_csv-accounted_example = load_csv-accounted library adapter loaded_csv.1

-- The second row is a failure.
rows_counted : adapter_rows library adapter ≡ 2
unfolding normal_type contains upper given_text
rows_counted = refl
