-- ===== src/Schemas.antt =====
-- ingestion/schemas.py: the normalised records. `record_type` is a field, since a record may be
-- built with another than its class's default.
pub mod Keys
use vault_recon_ai.Prelude.{List, Option, ◌*◌}
use vault_recon_ai.Prelude.Int.{ℤ}
use vault_recon_ai.Text.{Text}
use vault_recon_ai.Value.{Fields}

pub record FinancialRecord (F : Type 0) : Type 0 where
  pub record_type : Text
  pub merchant_id : Text
  pub currency : Text
  pub timestamp : ℤ
  pub source : Text
  pub metadata : Fields F

pub record PaymentRecord (F : Type 0) : Type 0 where
  pub base : FinancialRecord F
  pub open base use *
  pub transaction_id : Text
  pub order_id : Text
  pub customer_id : Text
  pub amount : F
  pub payment_method : Text
  pub status : Text

pub record InvoiceRecord (F : Type 0) : Type 0 where
  pub base : FinancialRecord F
  pub open base use *
  pub invoice_id : Text
  pub order_id : Text
  pub customer_id : Text
  pub amount : F
  pub status : Text

pub record ProcessorTransaction (F : Type 0) : Type 0 where
  pub base : FinancialRecord F
  pub open base use *
  pub processor_transaction_id : Text
  pub order_id : Text
  pub processor_name : Text
  pub event_type : Text
  pub gross_amount : F
  pub fee_amount : F
  pub net_amount : F
  pub settlement_batch_id : Option Text
  pub status : Text

pub record SettlementRecord (F : Type 0) : Type 0 where
  pub base : FinancialRecord F
  pub open base use *
  pub settlement_id : Text
  pub transaction_id : Text
  pub gross_amount : F
  pub fees : F
  pub net_amount : F
  pub settlement_batch_id : Option Text
  pub status : Text

pub record SettlementBatch (F : Type 0) : Type 0 where
  pub base : FinancialRecord F
  pub open base use *
  pub batch_id : Text
  pub processor_name : Text
  pub total_gross : F
  pub total_fees : F
  pub total_net : F
  pub transaction_count : ℤ
  pub transaction_ids : List Text
  pub status : Text

pub record BankTransactionRecord (F : Type 0) : Type 0 where
  pub base : FinancialRecord F
  pub open base use *
  pub bank_transaction_id : Text
  pub reference : Text
  pub amount : F
  pub transaction_type : Text
  pub description : Text
  pub status : Text

pub record RefundRecord (F : Type 0) : Type 0 where
  pub base : FinancialRecord F
  pub open base use *
  pub refund_id : Text
  pub transaction_id : Text
  pub order_id : Text
  pub amount : F
  pub reason : Text
  pub status : Text

pub record AdjustmentRecord (F : Type 0) : Type 0 where
  pub base : FinancialRecord F
  pub open base use *
  pub adjustment_id : Text
  pub reference_id : Text
  pub amount : F
  pub adjustment_type : Text
  pub reason : Text
  pub status : Text

-- The subclasses of `FinancialRecord`.
pub data AnyRecord (F : Type 0) : Type 0 where
  payment : PaymentRecord F → AnyRecord F
  invoice : InvoiceRecord F → AnyRecord F
  processor : ProcessorTransaction F → AnyRecord F
  settlement : SettlementRecord F → AnyRecord F
  batch : SettlementBatch F → AnyRecord F
  bank : BankTransactionRecord F → AnyRecord F
  refund : RefundRecord F → AnyRecord F
  adjustment : AdjustmentRecord F → AnyRecord F
