-- ===== src/Ingestion/Canonical/Counts.antt =====
-- datasets/run.py: what a load of the canonical files holds.
use mathlib.Core.Path.{subst}
use vault_recon_ai.Prelude.{List, Option, [], arith, length, none, refl, ℕ, ◌+◌, ◌∷◌, ◌≡◌}
use vault_recon_ai.Float.{Float}
use vault_recon_ai.Ingestion.{NormalizedDataset, total_of}
use vault_recon_ai.Ingestion.Canonical.{convert_all, file_rows, load_canonical}
use vault_recon_ai.Ingestion.Canonical.Cells.{CanonicalLibrary}
use vault_recon_ai.Ingestion.Canonical.Records.{
  canonical_bank, canonical_batch, canonical_invoice, canonical_payment, canonical_policy,
  canonical_processor, canonical_refund,
}
use vault_recon_ai.Ingestion.Csv.Cells.{Row}
use vault_recon_ai.Prelude.Int.{ℤ}
use vault_recon_ai.Result.{>>=-eq-ok, Result, ok, ok-injective, ◌>>=◌}
use vault_recon_ai.Text.{Text}

-- The values are those that the rows convert to, in order.
unfoldable pub Converted : {A : Type 0} → (Row → Result A) → List Row → List A → Type 0
Converted convert [] [] = Unit
Converted convert [] (x ∷ xs) = ⊥
Converted convert (r ∷ rows) [] = ⊥
Converted convert (r ∷ rows) (x ∷ xs) = (convert r ≡ ok x) × Converted convert rows xs

convert_all-Converted :
    {A : Type 0} (convert : Row → Result A) (rows : List Row) {xs : List A}
    → convert_all convert rows ≡ ok xs
    → Converted convert rows xs
unfolding convert_all Converted
convert_all-Converted convert [] h = rw (← ok-injective h) tt
convert_all-Converted convert (r ∷ rows) h =
    let (x, first, h1) = >>=-eq-ok (convert r) _ h in
    let (xs, later, h2) = >>=-eq-ok (convert_all convert rows) _ h1 in
    rw (← ok-injective h2) (first, convert_all-Converted convert rows later)

-- A file's step of the load.
convert_all->>= :
    {A B : Type 0} (convert : Row → Result A) (rows : List Row) (next : List A → Result B) {y : B}
    → (convert_all convert rows >>= next) ≡ ok y
    → (xs : List A) × Converted convert rows xs × (next xs ≡ ok y)
convert_all->>= convert rows next h =
    let (xs, all, rest) = >>=-eq-ok (convert_all convert rows) next h in
    (xs, convert_all-Converted convert rows all, rest)

pub Converted-length :
    {A : Type 0} (convert : Row → Result A) (rows : List Row) (xs : List A)
    → Converted convert rows xs
    → length xs ≡ length rows
unfolding Converted
Converted-length convert [] [] c = refl
Converted-length convert [] (x ∷ xs) c = absurd c
Converted-length convert (r ∷ rows) [] c = absurd c
Converted-length convert (r ∷ rows) (x ∷ xs) (c, cs) =
    omega (arith, Converted-length convert rows xs cs)

-- The taken rows of the six files of records.
unfoldable pub record_rows : CanonicalLibrary → Text → Option ℤ → ℕ
unfolding file_rows
record_rows lib data_dir limit =
    length (file_rows lib data_dir limit "payments.csv")
    + length (file_rows lib data_dir limit "processor_transactions.csv")
    + length (file_rows lib data_dir limit "bank_transactions.csv")
    + length (file_rows lib data_dir limit "invoices.csv")
    + length (file_rows lib data_dir limit "refunds.csv")
    + length (file_rows lib data_dir limit "settlements.csv")

module _ {F : Type 0} ⦃d : Float F⦄ (lib : CanonicalLibrary) (data_dir : Text)
    (limit : Option ℤ) where
  -- The data set holds the conversions of the taken rows of the seven files, and nothing else.
  pub record IsComplete (ds : NormalizedDataset F) : Type 0 where
    pub payments :
        Converted (canonical_payment lib) (file_rows lib data_dir limit "payments.csv") ds.payments
    pub processors :
        Converted
          (canonical_processor lib)
          (file_rows lib data_dir limit "processor_transactions.csv")
          ds.processor_transactions
    pub banks :
        Converted
          (canonical_bank lib)
          (file_rows lib data_dir limit "bank_transactions.csv")
          ds.bank_transactions
    pub invoices :
        Converted (canonical_invoice lib) (file_rows lib data_dir limit "invoices.csv") ds.invoices
    pub refunds :
        Converted (canonical_refund lib) (file_rows lib data_dir limit "refunds.csv") ds.refunds
    pub settlements :
        Converted
          (canonical_batch lib)
          (file_rows lib data_dir limit "settlements.csv")
          ds.settlements
    pub policies :
        Converted
          (canonical_policy lib)
          (file_rows lib data_dir none "fee_policies.csv")
          ds.fee_policies
    pub no_batches : ds.batches ≡ []
    pub no_adjustments : ds.adjustments ≡ []
    pub no_failures : ds.schema_failures ≡ []

  load_canonical-IsComplete :
      {ds : NormalizedDataset F} → load_canonical lib data_dir limit ≡ ok ds → IsComplete ds
  unfolding load_canonical
  load_canonical-IsComplete {ds} h =
      let rows = file_rows lib data_dir limit in
      let (payments, paid, h1) =
        convert_all->>= (canonical_payment lib) (rows "payments.csv") _ h in
      let (processors, processed, h2) =
        convert_all->>= (canonical_processor lib) (rows "processor_transactions.csv") _ h1 in
      let (banks, posted, h3) =
        convert_all->>= (canonical_bank lib) (rows "bank_transactions.csv") _ h2 in
      let (invoices, invoiced, h4) =
        convert_all->>= (canonical_invoice lib) (rows "invoices.csv") _ h3 in
      let (refunds, refunded, h5) =
        convert_all->>= (canonical_refund lib) (rows "refunds.csv") _ h4 in
      let (settlements, settled_rows, h6) =
        convert_all->>= (canonical_batch lib) (rows "settlements.csv") _ h5 in
      let (policies, policed, h7) =
        convert_all->>= (canonical_policy lib) (file_rows lib data_dir none "fee_policies.csv") _
          h6 in
      subst IsComplete (ok-injective h7) (record {
        payments = paid;
        processors = processed;
        banks = posted;
        invoices = invoiced;
        refunds = refunded;
        settlements = settled_rows;
        policies = policed;
        no_batches = refl;
        no_adjustments = refl;
        no_failures = refl;
      })

  -- The parts of a load, and its count of records.
  pub load_canonical-Complete :
      {ds : NormalizedDataset F}
      → load_canonical lib data_dir limit ≡ ok ds
      → IsComplete ds × (total_of ds ≡ record_rows lib data_dir limit)
  unfolding total_of record_rows
  load_canonical-Complete {ds} h =
      let c = load_canonical-IsComplete h in
      (
        c,
        rw (c.no_batches, c.no_adjustments)
            (omega (
              arith,
              Converted-length _ _ _ c.payments,
              Converted-length _ _ _ c.processors,
              Converted-length _ _ _ c.banks,
              Converted-length _ _ _ c.invoices,
              Converted-length _ _ _ c.refunds,
              Converted-length _ _ _ c.settlements,
            )),
      )
