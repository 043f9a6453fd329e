-- ===== src/Ingestion/Canonical/Fields.antt =====
-- datasets/run.py: the cells of a row that the fields of its record hold.
use mathlib.Core.Path.{subst}
use vault_recon_ai.Prelude.{List, Option, String, [], ap, none, refl, some, ◌∙◌, ◌∷◌, ◌≡◌}
use vault_recon_ai.Dict.{dict_get}
use vault_recon_ai.Fees.{FeePolicy}
use vault_recon_ai.Float.{Float}
use vault_recon_ai.Ingestion.Canonical.Cells.{
  CanonicalLibrary, cell_at, cell_either, cell_or, float_cell_either, float_cell_or, text_cell,
}
use vault_recon_ai.Ingestion.Canonical.Counts.{Converted}
use vault_recon_ai.Ingestion.Canonical.Records.{
  base_cells, canonical_bank, canonical_batch, canonical_invoice, canonical_payment,
  canonical_policy, canonical_processor, canonical_refund,
}
use vault_recon_ai.Ingestion.Csv.Cells.{Row, float_at, float_of}
use vault_recon_ai.Prelude.Int.{pos}
use vault_recon_ai.Result.{>>=-eq-ok, Result, of_option, of_option-ok, ok, ok-injective, ◌>>=◌}
use vault_recon_ai.Schemas.{
  AnyRecord, BankTransactionRecord, InvoiceRecord, PaymentRecord, ProcessorTransaction,
  RefundRecord,
}
use vault_recon_ai.Text.{Text, codes}
use vault_recon_ai.Vault.Window.{int_of_text}

-- The values and the rows agree, in order.
unfoldable pub Aligned : {A : Type 0} → (Row → A → Type 0) → List Row → List A → Type 0
Aligned S [] [] = Unit
Aligned S [] (x ∷ xs) = ⊥
Aligned S (r ∷ rows) [] = ⊥
Aligned S (r ∷ rows) (x ∷ xs) = S r x × Aligned S rows xs

pub Converted-Aligned :
    {A : Type 0} (convert : Row → Result A) (S : Row → A → Type 0)
    → ((r : Row) (x : A) → convert r ≡ ok x → S r x)
    → (rows : List Row) (xs : List A) → Converted convert rows xs
    → Aligned S rows xs
unfolding Converted Aligned
Converted-Aligned convert S f [] [] c = tt
Converted-Aligned convert S f [] (x ∷ xs) c = absurd c
Converted-Aligned convert S f (r ∷ rows) [] c = absurd c
Converted-Aligned convert S f (r ∷ rows) (x ∷ xs) (c, cs) =
    (f r x c, Converted-Aligned convert S f rows xs cs)

-- The row has the text under the name.
abbrev pub Cell : Row → String → Text → Type 0
Cell r k s = dict_get r (codes k) ≡ some (some s)

text_cell-some : (v : Option Text) (s : Text) → text_cell v ≡ ok s → v ≡ some s
unfolding text_cell
text_cell-some none s h = cc
text_cell-some (some t) s h = ap some (ok-injective h)

cell_at-Cell : (r : Row) (k : String) (s : Text) → cell_at r k ≡ ok s → Cell r k s
unfolding cell_at
cell_at-Cell r k s h =
    let (v, at, rest) = >>=-eq-ok (of_option (dict_get r (codes k))) _ h in
    of_option-ok (dict_get r (codes k)) at ∙ ap some (text_cell-some v s rest)

-- A chain that returned read the cell.
cell_at->>= :
    {B : Type 0} (r : Row) (k : String) (next : Text → Result B) {y : B}
    → (cell_at r k >>= next) ≡ ok y
    → (s : Text) × Cell r k s × (next s ≡ ok y)
cell_at->>= r k next h =
    let (s, at, rest) = >>=-eq-ok (cell_at r k) next h in (s, cell_at-Cell r k s at, rest)

module _ {F : Type 0} ⦃d : Float F⦄ where
  open d use {of_text}

  -- The row has a text under the name that float() reads as the number.
  abbrev pub Amount : Row → String → F → Type 0
  Amount r k x = (s : Text) × Cell r k s × (of_text s ≡ some x)

  float_of-some :
      (v : Option Text) (x : F)
      → float_of v ≡ ok x
      → (s : Text) × (v ≡ some s) × (of_text s ≡ some x)
  unfolding float_of
  float_of-some none x h = cc
  float_of-some (some s) x h = (s, refl, of_option-ok (of_text s) h)

  float_at-Amount : (r : Row) (k : String) (x : F) → float_at r k ≡ ok x → Amount r k x
  unfolding float_at
  float_at-Amount r k x h =
      let (v, at, rest) = >>=-eq-ok (of_option (dict_get r (codes k))) _ h in
      let (s, is, reads) = float_of-some v x rest in
      (s, of_option-ok (dict_get r (codes k)) at ∙ ap some is, reads)

  float_at->>= :
      {B : Type 0} (r : Row) (k : String) (next : F → Result B) {y : B}
      → (float_at r k >>= next) ≡ ok y
      → (x : F) × Amount r k x × (next x ≡ ok y)
  float_at->>= r k next h =
      let (x, at, rest) = >>=-eq-ok (float_at r k) next h in (x, float_at-Amount r k x at, rest)

module _ {F : Type 0} ⦃d : Float F⦄ (lib : CanonicalLibrary) where
  open d use {lit}

  abbrev pub PaymentRow : Row → PaymentRecord F → Type 0
  PaymentRow r p =
      Cell r "payment_id" p.transaction_id
      × Cell r "order_id" p.order_id
      × Amount r "amount" p.amount

  pub canonical_payment-PaymentRow :
      (r : Row) (p : PaymentRecord F) → canonical_payment lib r ≡ ok p → PaymentRow r p
  unfolding canonical_payment
  canonical_payment-PaymentRow r p h =
      let (v0, _, h1) = >>=-eq-ok (base_cells lib r "PAYMENT" "CSV:payments" _) _ h in
      let (v1, at1, h2) = cell_at->>= r "payment_id" _ h1 in
      let (v2, at2, h3) = cell_at->>= r "order_id" _ h2 in
      let (v3, _, h4) = >>=-eq-ok (cell_or r "customer_id" []) _ h3 in
      let (v4, at4, h5) = float_at->>= r "amount" _ h4 in
      let (v5, _, h6) = >>=-eq-ok (cell_or r "payment_method" (codes "CARD")) _ h5 in
      subst (PaymentRow r) (ok-injective h6) (at1, at2, at4)

  abbrev pub ProcessorRow : Row → ProcessorTransaction F → Type 0
  ProcessorRow r p =
      Cell r "processor_transaction_id" p.processor_transaction_id
      × Cell r "order_id" p.order_id
      × Amount r "gross_amount" p.gross_amount
      × Amount r "net_amount" p.net_amount

  pub canonical_processor-ProcessorRow :
      (r : Row) (p : ProcessorTransaction F) → canonical_processor lib r ≡ ok p → ProcessorRow r p
  unfolding canonical_processor
  canonical_processor-ProcessorRow r p h =
      let (v0, _, h1) = >>=-eq-ok (base_cells lib r "PROCESSOR" "CSV:processors" _) _ h in
      let (v1, at1, h2) = cell_at->>= r "processor_transaction_id" _ h1 in
      let (v2, at2, h3) = cell_at->>= r "order_id" _ h2 in
      let (v3, _, h4) = >>=-eq-ok (cell_or r "processor_id" (codes "STRIPE")) _ h3 in
      let (v4, at4, h5) = float_at->>= r "gross_amount" _ h4 in
      let (v5, _, h6) = >>=-eq-ok (float_cell_or r "fee_amount" (lit 0 0)) _ h5 in
      let (v6, at6, h7) = float_at->>= r "net_amount" _ h6 in
      subst (ProcessorRow r) (ok-injective h7) (at1, at2, at4, at6)

  abbrev pub BankRow : Row → BankTransactionRecord F → Type 0
  BankRow r p = Cell r "bank_transaction_id" p.bank_transaction_id × Amount r "amount" p.amount

  pub canonical_bank-BankRow :
      (r : Row) (p : BankTransactionRecord F) → canonical_bank lib r ≡ ok p → BankRow r p
  unfolding canonical_bank
  canonical_bank-BankRow r p h =
      let (v0, _, h1) = >>=-eq-ok (base_cells lib r "BANK_TRANSACTION" "CSV:bank" _) _ h in
      let (v1, at1, h2) = cell_at->>= r "bank_transaction_id" _ h1 in
      let (v2, _, h3) = >>=-eq-ok (cell_or r "settlement_id" v1) _ h2 in
      let (v3, at3, h4) = float_at->>= r "amount" _ h3 in
      let (v4, _, h5) = >>=-eq-ok (cell_or r "type" (codes "CREDIT")) _ h4 in
      let (v5, _, h6) = >>=-eq-ok (cell_or r "description" []) _ h5 in
      subst (BankRow r) (ok-injective h6) (at1, at3)

  abbrev pub InvoiceRow : Row → InvoiceRecord F → Type 0
  InvoiceRow r p =
      Cell r "invoice_id" p.invoice_id × Cell r "order_id" p.order_id × Amount r "amount" p.amount

  pub canonical_invoice-InvoiceRow :
      (r : Row) (p : InvoiceRecord F) → canonical_invoice lib r ≡ ok p → InvoiceRow r p
  unfolding canonical_invoice
  canonical_invoice-InvoiceRow r p h =
      let (v0, _, h1) = >>=-eq-ok (base_cells lib r "INVOICE" "CSV:invoices" (pos 0)) _ h in
      let (v1, at1, h2) = cell_at->>= r "invoice_id" _ h1 in
      let (v2, at2, h3) = cell_at->>= r "order_id" _ h2 in
      let (v3, _, h4) = >>=-eq-ok (cell_or r "customer_id" []) _ h3 in
      let (v4, at4, h5) = float_at->>= r "amount" _ h4 in
      subst (InvoiceRow r) (ok-injective h5) (at1, at2, at4)

  abbrev pub RefundRow : Row → RefundRecord F → Type 0
  RefundRow r p =
      Cell r "refund_id" p.refund_id
      × Cell r "order_id" p.order_id
      × Amount r "refund_amount" p.amount

  pub canonical_refund-RefundRow :
      (r : Row) (p : RefundRecord F) → canonical_refund lib r ≡ ok p → RefundRow r p
  unfolding canonical_refund
  canonical_refund-RefundRow r p h =
      let (v0, _, h1) = >>=-eq-ok (base_cells lib r "REFUND" "CSV:refunds" _) _ h in
      let (v1, at1, h2) = cell_at->>= r "refund_id" _ h1 in
      let (v2, _, h3) = >>=-eq-ok (cell_either r "payment_id" "transaction_id" []) _ h2 in
      let (v3, at3, h4) = cell_at->>= r "order_id" _ h3 in
      let (v4, at4, h5) = float_at->>= r "refund_amount" _ h4 in
      let (v5, _, h6) = >>=-eq-ok (cell_or r "reason" (codes "REFUND")) _ h5 in
      subst (RefundRow r) (ok-injective h6) (at1, at3, at4)

  abbrev pub BatchRow : Row → AnyRecord F → Type 0
  BatchRow r (AnyRecord.batch p) =
      Cell r "settlement_id" p.batch_id
      × Amount r "gross_amount" p.total_gross
      × Amount r "net_amount" p.total_net
  BatchRow r x = ⊥

  pub canonical_batch-BatchRow :
      (r : Row) (p : AnyRecord F) → canonical_batch lib r ≡ ok p → BatchRow r p
  unfolding canonical_batch
  canonical_batch-BatchRow r p h =
      let (v0, _, h1) = >>=-eq-ok (base_cells lib r "BATCH" "CSV:settlements" _) _ h in
      let (v1, at1, h2) = cell_at->>= r "settlement_id" _ h1 in
      let (v2, _, h3) = >>=-eq-ok (cell_or r "processor_id" (codes "STRIPE")) _ h2 in
      let (v3, at3, h4) = float_at->>= r "gross_amount" _ h3 in
      let (v4, _, h5) = >>=-eq-ok (float_cell_or r "fee_amount" (lit 0 0)) _ h4 in
      let (v5, at5, h6) = float_at->>= r "net_amount" _ h5 in
      let (v6, _, h7) = >>=-eq-ok (cell_or r "transaction_count" (codes "1")) _ h6 in
      let (v7, _, h8) = >>=-eq-ok (of_option (int_of_text v6)) _ h7 in
      subst (BatchRow r) (ok-injective h8) (at1, at3, at5)

  abbrev pub PolicyRow : Row → FeePolicy F → Type 0
  PolicyRow r p = Cell r "policy_id" p.policy_id

  pub canonical_policy-PolicyRow :
      (r : Row) (p : FeePolicy F) → canonical_policy lib r ≡ ok p → PolicyRow r p
  unfolding canonical_policy
  canonical_policy-PolicyRow r p h =
      let (v0, at0, h1) = cell_at->>= r "policy_id" _ h in
      let (w0, _, k0) =
        >>=-eq-ok (cell_either r "processor_id" "processor" (codes "STRIPE")) _ h1 in
      let (w1, _, k1) = >>=-eq-ok (cell_or r "payment_method" (codes "CARD")) _ k0 in
      let (w2, _, k2) = >>=-eq-ok (cell_or r "currency" (codes "USD")) _ k1 in
      let (w3, _, k3) = >>=-eq-ok (float_cell_either r "fixed_fee" "fixed_charge" (lit 0 0)) _ k2 in
      let (w4, _, k4) =
        >>=-eq-ok (float_cell_either r "rate_pct" "percentage_rate" (lit 0 0)) _ k3 in
      subst (PolicyRow r) (ok-injective k4) at0
