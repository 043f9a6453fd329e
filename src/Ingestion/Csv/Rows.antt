-- ===== src/Ingestion/Csv/Rows.antt =====
-- ingestion/adapters/generic_csv.py: what becomes of the rows.
use vault_recon_ai.Prelude.{
  Bool-cases, List, Option, [], arith, if◌then◌else◌, inl, inr, is_empty, is_some, length,
  length-append, none, or_default, refl, some, suc, ℕ, ◌+◌, ◌∷◌, ◌≡◌,
}
use vault_recon_ai.Dict.{Dict, dict_get}
use vault_recon_ai.Float.{Float}
use vault_recon_ai.Ingestion.{NormalizedDataset, total_of}
use vault_recon_ai.Ingestion.Csv.{
  add_row, append_record, empty_dataset, failure_of, ingest_file, ingest_files, ingest_rows,
  ingest_single, load_csv, row_record,
}
use vault_recon_ai.Ingestion.Csv.Cells.{
  CsvLibrary, GenericCsvAdapter, Row, given_text, mapped_row, normal_type,
}
use vault_recon_ai.Result.{>>=-eq-ok, Result, of_option, of_option-ok, ok, ok-injective, raised}
use vault_recon_ai.Schemas.{AnyRecord}
use vault_recon_ai.Text.{Text, codes, contains, upper}
use vault_recon_ai.Value.{Fields}

-- The types that the adapter knows.
abbrev pub known_types : List Text
known_types =
    codes "PAYMENT"
    ∷ codes "ORDER"
    ∷ codes "PROCESSOR"
    ∷ codes "PROCESSOR_TRANSACTION"
    ∷ codes "GATEWAY"
    ∷ codes "INVOICE"
    ∷ codes "BILL"
    ∷ codes "BANK"
    ∷ codes "BANK_TRANSACTION"
    ∷ codes "BANK_TXN"
    ∷ codes "DEPOSIT"
    ∷ codes "REFUND"
    ∷ codes "CHARGEBACK"
    ∷ []

-- Records and failures together.
unfoldable pub accounted : {F : Type 0} → NormalizedDataset F → ℕ
unfolding total_of
accounted ds = total_of ds + length ds.schema_failures

module _ {F : Type 0} ⦃d : Float F⦄ (lib : CsvLibrary F) where
  append_record-accounted :
      (r : AnyRecord F) (ds : NormalizedDataset F)
      → accounted (append_record lib r ds) ≡ accounted ds + 1
  unfolding accounted append_record
  append_record-accounted (AnyRecord.payment r) ds =
      omega (arith, length-append {0} ds.payments (r ∷ []))
  append_record-accounted (AnyRecord.invoice r) ds =
      omega (arith, length-append {0} ds.invoices (r ∷ []))
  append_record-accounted (AnyRecord.processor r) ds =
      omega (arith, length-append {0} ds.processor_transactions (r ∷ []))
  append_record-accounted (AnyRecord.settlement r) ds =
      omega (arith, length-append {0} ds.settlements (AnyRecord.settlement r ∷ []))
  append_record-accounted (AnyRecord.batch r) ds =
      omega (arith, length-append {0} ds.batches (r ∷ []))
  append_record-accounted (AnyRecord.bank r) ds =
      omega (arith, length-append {0} ds.bank_transactions (r ∷ []))
  append_record-accounted (AnyRecord.refund r) ds =
      omega (arith, length-append {0} ds.refunds (r ∷ []))
  append_record-accounted (AnyRecord.adjustment r) ds =
      omega (arith, length-append {0} ds.adjustments (r ∷ []))

  add_row-accounted :
      (failure : Fields F) (o : Option (Result (AnyRecord F))) (ds : NormalizedDataset F)
      → accounted (add_row lib failure o ds) ≡ accounted ds + (if is_some o then 1 else 0)
  unfolding add_row
  add_row-accounted failure none ds = omega arith
  add_row-accounted failure (some (ok r)) ds = append_record-accounted r ds
  add_row-accounted failure (some raised) ds =
      unfold accounted in omega (arith, length-append {0} ds.schema_failures (failure ∷ []))

  row_record-known :
      (source rtype : Text) (m : Row)
      → is_some (row_record lib source rtype m) ≡ contains known_types rtype
  unfolding row_record contains
  row_record-known source rtype m = ground arith

  ingest_rows-accounted :
      (source path rtype : Text) (mapping : Dict Text) (i : ℕ) (rows : List Row)
      (ds : NormalizedDataset F)
      → accounted (ingest_rows lib source path rtype mapping i rows ds)
        ≡ accounted ds + (if contains known_types rtype then length rows else 0)
  unfolding ingest_rows
  ingest_rows-accounted source path rtype mapping i [] ds = ground arith
  ingest_rows-accounted source path rtype mapping i (row ∷ rows) ds =
      let found = row_record lib source rtype (mapped_row mapping row) in
      let failure = failure_of lib path i rtype row in
      ground (
        arith,
        row_record-known source rtype (mapped_row mapping row),
        add_row-accounted failure found ds,
        ingest_rows-accounted source path rtype mapping (suc i) rows (add_row lib failure found ds),
      )

  -- The rows of a file, if the adapter knows its type.
  abbrev pub known_rows : Text → Text → ℕ
  known_rows path record_type =
      if contains known_types (normal_type record_type)
      then length (or_default (lib.read path) [])
      else 0

  -- The rows of the files that are to be loaded.
  abbrev pub files_rows : Dict Text → ℕ
  files_rows [] = 0
  files_rows ((rtype, path) ∷ files) = known_rows path rtype + files_rows files

  abbrev pub single_rows : Option Text → Option Text → ℕ
  single_rows (some path) (some rtype) = known_rows path (upper rtype)
  single_rows _ _ = 0

  abbrev pub adapter_rows : GenericCsvAdapter → ℕ
  adapter_rows a =
      if is_empty a.file_paths
      then single_rows (given_text a.file_path) (given_text a.record_type)
      else files_rows a.file_paths

  ingest_file-accounted :
      (source path record_type : Text) (mapping : Dict Text) (ds : NormalizedDataset F)
      {ds' : NormalizedDataset F}
      → ingest_file lib source path record_type mapping ds ≡ ok ds'
      → accounted ds' ≡ accounted ds + known_rows path record_type
  unfolding ingest_file
  ingest_file-accounted source path record_type mapping ds h =
      let (rows, read, same) = >>=-eq-ok (of_option (lib.read path)) _ h in
      rw (← ok-injective same, of_option-ok (lib.read path) read)
        (ingest_rows-accounted source path (normal_type record_type) mapping 2 rows ds)

  ingest_files-accounted :
      (a : GenericCsvAdapter) (files : Dict Text) (ds : NormalizedDataset F)
      {ds' : NormalizedDataset F}
      → ingest_files lib a files ds ≡ ok ds'
      → accounted ds' ≡ accounted ds + files_rows files
  unfolding ingest_files
  ingest_files-accounted a [] ds h = rw (← ok-injective h) (omega arith)
  ingest_files-accounted a ((rtype, path) ∷ files) ds h =
      let mapping = or_default (dict_get a.column_mappings rtype) [] in
      let (ds1, first, rest) =
        >>=-eq-ok (ingest_file lib a.source_name path rtype mapping ds) _ h in
      let one_file = ingest_file-accounted a.source_name path rtype mapping ds first in
      omega (arith, one_file, ingest_files-accounted a files ds1 rest)

  ingest_single-accounted :
      (a : GenericCsvAdapter) (path rtype : Option Text) (ds : NormalizedDataset F)
      {ds' : NormalizedDataset F}
      → ingest_single lib a path rtype ds ≡ ok ds'
      → accounted ds' ≡ accounted ds + single_rows path rtype
  unfolding ingest_single
  ingest_single-accounted a (some path) (some rtype) ds h =
      ingest_file-accounted a.source_name path (upper rtype) a.column_mapping ds h
  ingest_single-accounted a (some path) none ds h = rw (← ok-injective h) (omega arith)
  ingest_single-accounted a none rtype ds h = rw (← ok-injective h) (omega arith)

  empty_dataset-accounted : (source : Text) → accounted (empty_dataset lib source) ≡ 0
  unfolding accounted empty_dataset
  empty_dataset-accounted source = refl

  -- In a load that returns, each row of a file whose type is known became one record or one schema
  -- failure, and the rows of the other files became neither.
  pub load_csv-accounted :
      (a : GenericCsvAdapter) {ds : NormalizedDataset F}
      → load_csv lib a ≡ ok ds
      → total_of ds + length ds.schema_failures ≡ adapter_rows a
  unfolding load_csv accounted
  load_csv-accounted a h = elim (Bool-cases (is_empty a.file_paths)) [
    | inl single ↦ rw single (
        omega (
          arith,
          empty_dataset-accounted a.source_name,
          ingest_single-accounted a (given_text a.file_path) (given_text a.record_type)
              (empty_dataset lib a.source_name) (rw single at h),
        ))
    | inr several ↦ rw several (
        omega (
          arith,
          empty_dataset-accounted a.source_name,
          ingest_files-accounted a a.file_paths (empty_dataset lib a.source_name) (rw several at h),
        ))
  ]
