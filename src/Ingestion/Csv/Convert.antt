-- ===== src/Ingestion/Csv/Convert.antt =====
-- ingestion/adapters/generic_csv.py: a row of each type as a record.
use vault_recon_ai.Prelude.{String, [], none}
use vault_recon_ai.Float.{Float}
use vault_recon_ai.Ingestion.Csv.Cells.{
  CsvLibrary, Row, float_at, float_or, text_at, text_at_one, text_or,
}
use vault_recon_ai.Prelude.Int.{pos, ℤ}
use vault_recon_ai.Result.{Result, of_option, ok, ◌>>=◌}
use vault_recon_ai.Schemas.{AnyRecord, FinancialRecord}
use vault_recon_ai.Text.{Text, codes}

module _ {F : Type 0} ⦃d : Float F⦄ (lib : CsvLibrary F) where
  open d use {lit, of_int, sub}

  -- int(float(mapped.get("timestamp") or 0))
  unfoldable pub timestamp_of : Row → Result ℤ
  unfolding float_or
  timestamp_of m = do x ← float_or m "timestamp" (of_int (pos 0)); of_option (lib.truncate x)

  base_at : Text → String → Row → Result (FinancialRecord F)
  unfolding text_or timestamp_of
  base_at source kind m = do
    t ← timestamp_of m
    ok (record {
      record_type = codes kind;
      merchant_id = text_or m "merchant_id" "DEFAULT";
      currency = text_or m "currency" "USD";
      timestamp = t;
      source = source;
      metadata = [];
    })

  unfoldable pub payment_row : Text → Row → Result (AnyRecord F)
  unfolding base_at text_at float_at text_or
  payment_row source m = do
    base ← base_at source "PAYMENT" m
    transaction_id ← text_at m "transaction_id"
    order_id ← text_at m "order_id"
    amount ← float_at m "amount"
    ok (
        AnyRecord.payment (record {
          base = base;
          transaction_id = transaction_id;
          order_id = order_id;
          customer_id = text_or m "customer_id" "UNKNOWN_CUST";
          amount = amount;
          payment_method = text_or m "payment_method" "CREDIT_CARD";
          status = codes "SUCCESS";
        }))

  -- The keyword `processor` is no field of the class, so the name is the class's default.
  unfoldable pub processor_row : Text → Row → Result (AnyRecord F)
  unfolding base_at text_at float_at float_or
  processor_row source m = do
    gross ← float_at m "gross_amount"
    fee ← float_or m "fee_amount" (lit 0 0)
    net ← float_or m "net_amount" (sub gross fee)
    base ← base_at source "PROCESSOR" m
    processor_transaction_id ← text_at m "processor_transaction_id"
    order_id ← text_at m "order_id"
    ok (
        AnyRecord.processor (record {
          base = base;
          processor_transaction_id = processor_transaction_id;
          order_id = order_id;
          processor_name = codes "GATEWAY";
          event_type = codes "CAPTURE";
          gross_amount = gross;
          fee_amount = fee;
          net_amount = net;
          settlement_batch_id = none;
          status = codes "SETTLED";
        }))

  unfoldable pub invoice_row : Text → Row → Result (AnyRecord F)
  unfolding base_at text_at float_at text_or
  invoice_row source m = do
    base ← base_at source "INVOICE" m
    invoice_id ← text_at m "invoice_id"
    order_id ← text_at m "order_id"
    amount ← float_at m "amount"
    ok (
        AnyRecord.invoice (record {
          base = base;
          invoice_id = invoice_id;
          order_id = order_id;
          customer_id = text_or m "customer_id" "UNKNOWN_CUST";
          amount = amount;
          status = codes "ISSUED";
        }))

  unfoldable pub bank_row : Text → Row → Result (AnyRecord F)
  unfolding base_at text_at text_at_one float_at text_or
  bank_row source m = do
    base ← base_at source "BANK_TRANSACTION" m
    bank_transaction_id ← text_at m "bank_transaction_id"
    reference ← text_at_one m "reference" "order_id" "bank_transaction_id"
    amount ← float_at m "amount"
    ok (
        AnyRecord.bank (record {
          base = base;
          bank_transaction_id = bank_transaction_id;
          reference = reference;
          amount = amount;
          transaction_type = codes "CREDIT";
          description = text_or m "description" "Bank Entry";
          status = codes "POSTED";
        }))

  unfoldable pub refund_row : Text → Row → Result (AnyRecord F)
  unfolding base_at text_at text_at_one float_at
  refund_row source m = do
    base ← base_at source "REFUND" m
    refund_id ← text_at m "refund_id"
    transaction_id ← text_at_one m "transaction_id" "order_id" "refund_id"
    order_id ← text_at m "order_id"
    amount ← float_at m "amount"
    ok (
        AnyRecord.refund (record {
          base = base;
          refund_id = refund_id;
          transaction_id = transaction_id;
          order_id = order_id;
          amount = amount;
          reason = codes "CUSTOMER_REQUEST";
          status = codes "PROCESSED";
        }))
