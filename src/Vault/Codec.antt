-- ===== src/Vault/Codec.antt =====
-- What pydantic and `json` do for the program: texts of records, and back. `none` is the exception
-- that a text raises which does not fit.
use vault_recon_ai.Prelude.{Option}
use vault_recon_ai.Schemas.{
  AnyRecord, BankTransactionRecord, InvoiceRecord, PaymentRecord, ProcessorTransaction,
  RefundRecord, SettlementBatch, SettlementRecord,
}
use vault_recon_ai.Text.{Text}
use vault_recon_ai.Value.{Fields}

pub record Codec (F : Type 0) : Type 0 where
  -- record.model_dump_json()
  pub dump : AnyRecord F → Text
  -- PaymentRecord.model_validate_json(text), and the other classes'
  pub load_payment : Text → Option (PaymentRecord F)
  pub load_invoice : Text → Option (InvoiceRecord F)
  pub load_processor : Text → Option (ProcessorTransaction F)
  pub load_settlement : Text → Option (SettlementRecord F)
  pub load_batch : Text → Option (SettlementBatch F)
  pub load_bank : Text → Option (BankTransactionRecord F)
  pub load_refund : Text → Option (RefundRecord F)
  -- json.loads(text) of an object
  pub loads : Text → Option (Fields F)
