-- ===== src/Ingestion/Csv.antt =====
-- ingestion/adapters/generic_csv.py: rows of CSV files as normalised records.
pub mod Cells
pub mod Convert
pub mod Rows
use vault_recon_ai.Prelude.{
  List, Option, [], if◌then◌else◌, is_empty, none, or_default, some, suc, ℕ, ◌++◌, ◌∷◌,
}
use vault_recon_ai.Dict.{Dict, dict_get}
use vault_recon_ai.Float.{Float}
use vault_recon_ai.Ingestion.{NormalizedDataset}
use vault_recon_ai.Ingestion.Csv.Cells.{
  CsvLibrary, GenericCsvAdapter, Row, given_text, mapped_row, normal_type,
}
use vault_recon_ai.Ingestion.Csv.Convert.{
  bank_row, invoice_row, payment_row, processor_row, refund_row,
}
use vault_recon_ai.Prelude.Int.{pos}
use vault_recon_ai.Result.{Result, of_option, ok, raised, ◌>>=◌}
use vault_recon_ai.Schemas.{AnyRecord}
use vault_recon_ai.Text.{Text, codes, contains, upper}
use vault_recon_ai.Value.{Fields, Value}

module _ {F : Type 0} ⦃d : Float F⦄ (lib : CsvLibrary F) where
  -- The record of a row, by the file's type; None where the type is not known.
  unfoldable pub row_record : Text → Text → Row → Option (Result (AnyRecord F))
  unfolding contains payment_row processor_row invoice_row bank_row refund_row
  row_record source rtype m =
      if contains (codes "PAYMENT" ∷ codes "ORDER" ∷ []) rtype
      then some (payment_row lib source m)
      else if contains (codes "PROCESSOR" ∷ codes "PROCESSOR_TRANSACTION" ∷ codes "GATEWAY" ∷ [])
          rtype
      then some (processor_row lib source m)
      else if contains (codes "INVOICE" ∷ codes "BILL" ∷ []) rtype
      then some (invoice_row lib source m)
      else if contains
          (codes "BANK" ∷ codes "BANK_TRANSACTION" ∷ codes "BANK_TXN" ∷ codes "DEPOSIT" ∷ []) rtype
      then some (bank_row lib source m)
      else if contains (codes "REFUND" ∷ codes "CHARGEBACK" ∷ []) rtype
      then some (refund_row lib source m)
      else none

  -- The list that the record is appended to; the adapter makes no other records.
  unfoldable pub append_record : AnyRecord F → NormalizedDataset F → NormalizedDataset F
  append_record (AnyRecord.payment r) ds = record ds { payments = ds.payments ++ r ∷ [] }
  append_record (AnyRecord.processor r) ds = record ds {
    processor_transactions = ds.processor_transactions ++ r ∷ [];
  }
  append_record (AnyRecord.invoice r) ds = record ds { invoices = ds.invoices ++ r ∷ [] }
  append_record (AnyRecord.bank r) ds = record ds {
    bank_transactions = ds.bank_transactions ++ r ∷ [];
  }
  append_record (AnyRecord.refund r) ds = record ds { refunds = ds.refunds ++ r ∷ [] }
  append_record (AnyRecord.settlement r) ds = record ds {
    settlements = ds.settlements ++ AnyRecord.settlement r ∷ [];
  }
  append_record (AnyRecord.batch r) ds = record ds { batches = ds.batches ++ r ∷ [] }
  append_record (AnyRecord.adjustment r) ds = record ds { adjustments = ds.adjustments ++ r ∷ [] }

  -- The entry of a row that raised.
  unfoldable pub failure_of : Text → ℕ → Text → Row → Fields F
  failure_of path row_idx rtype row =
      (codes "file", Value.str path)
      ∷ (codes "row_index", Value.int (pos row_idx))
      ∷ (codes "raw_row", Value.container (lib.row_text row) (is_empty row))
      ∷ (codes "error", Value.str (lib.error_text rtype row))
      ∷ []

  unfoldable pub add_row :
      Fields F → Option (Result (AnyRecord F)) → NormalizedDataset F → NormalizedDataset F
  unfolding append_record
  add_row failure none ds = ds
  add_row failure (some (ok r)) ds = append_record r ds
  add_row failure (some raised) ds = record ds {
    schema_failures = ds.schema_failures ++ failure ∷ [];
  }

  -- The loop over the rows.
  unfoldable pub ingest_rows :
      Text → Text → Text → Dict Text → ℕ → List Row → NormalizedDataset F → NormalizedDataset F
  unfolding add_row row_record mapped_row failure_of
  ingest_rows source path rtype mapping row_idx [] ds = ds
  ingest_rows source path rtype mapping row_idx (row ∷ rows) ds =
      ingest_rows source path rtype mapping (suc row_idx) rows (
        add_row (failure_of path row_idx rtype row)
          (row_record source rtype (mapped_row mapping row)) ds)

  -- `_ingest_file`: raises where the file is not there.
  unfoldable pub ingest_file :
      Text → Text → Text → Dict Text → NormalizedDataset F → Result (NormalizedDataset F)
  unfolding ingest_rows normal_type
  ingest_file source path record_type mapping ds = do
    rows ← of_option (lib.read path)
    ok (ingest_rows source path (normal_type record_type) mapping 2 rows ds)

  unfoldable pub ingest_files :
      GenericCsvAdapter → Dict Text → NormalizedDataset F → Result (NormalizedDataset F)
  unfolding ingest_file dict_get
  ingest_files a [] ds = ok ds
  ingest_files a ((rtype, path) ∷ files) ds = do
    ds' ← ingest_file a.source_name path rtype (or_default (dict_get a.column_mappings rtype) []) ds
    ingest_files a files ds'

  unfoldable pub empty_dataset : Text → NormalizedDataset F
  empty_dataset source = record {
    source_name = source;
    payments = [];
    invoices = [];
    processor_transactions = [];
    settlements = [];
    batches = [];
    bank_transactions = [];
    refunds = [];
    adjustments = [];
    fee_policies = [];
    ground_truth = [];
    schema_failures = [];
  }

  -- Mode B: a path and a type that are not empty.
  unfoldable pub ingest_single :
      GenericCsvAdapter
      → Option Text
      → Option Text
      → NormalizedDataset F
      → Result (NormalizedDataset F)
  unfolding ingest_file upper
  ingest_single a (some path) (some rtype) ds =
      ingest_file a.source_name path (upper rtype) a.column_mapping ds
  ingest_single a _ _ ds = ok ds

  -- `GenericCSVAdapter.load_dataset`
  unfoldable pub load_csv : GenericCsvAdapter → Result (NormalizedDataset F)
  unfolding empty_dataset ingest_files ingest_single given_text
  load_csv a =
      let ds = empty_dataset a.source_name in
      if is_empty a.file_paths
      then ingest_single a (given_text a.file_path) (given_text a.record_type) ds
      else ingest_files a a.file_paths ds
