-- ===== src/Sample.antt =====
-- A small vault over millionths, with one order and one settled batch, on which the theorems are
-- tried.
pub mod Keyed
use vault_recon_ai.Prelude.{
  List, Option, String, [], false, if◌then◌else◌, none, some, true, ◌++◌, ◌∷◌,
}
use vault_recon_ai.Exceptions.{Moment}
use vault_recon_ai.Fees.{FeePolicyRegistry}
use vault_recon_ai.Float.Micro.{Micro}
use vault_recon_ai.Matcher.{Engine}
use vault_recon_ai.Prelude.Int.{pos}
use vault_recon_ai.Schemas.{
  AnyRecord, BankTransactionRecord, FinancialRecord, PaymentRecord, ProcessorTransaction,
  SettlementBatch,
}
use vault_recon_ai.Text.{Text, codes, text_eq}
use vault_recon_ai.Value.{Value}
use vault_recon_ai.Vault.{Vault}
use vault_recon_ai.Vault.Codec.{Codec}

abbrev pub base_of : Text → FinancialRecord Micro
base_of kind = record {
  record_type = kind;
  merchant_id = codes "M1";
  currency = codes "USD";
  timestamp = pos 1000;
  source = codes "test";
  metadata = [];
}

abbrev pub payment_p1 : PaymentRecord Micro
payment_p1 = record {
  base = base_of (codes "PAYMENT");
  transaction_id = codes "P1";
  order_id = codes "O1";
  customer_id = codes "C1";
  amount = pos 5_000_000;
  payment_method = codes "CARD";
  status = codes "SUCCESS";
}

abbrev pub processor_x1 : ProcessorTransaction Micro
processor_x1 = record {
  base = base_of (codes "PROCESSOR");
  processor_transaction_id = codes "X1";
  order_id = codes "O1";
  processor_name = codes "STRIPE";
  event_type = codes "CHARGE";
  gross_amount = pos 5_000_000;
  fee_amount = pos 0;
  net_amount = pos 5_000_000;
  settlement_batch_id = some (codes "B1");
  status = codes "SUCCESS";
}

abbrev pub batch_b1 : SettlementBatch Micro
batch_b1 = record {
  base = base_of (codes "BATCH");
  batch_id = codes "B1";
  processor_name = codes "STRIPE";
  total_gross = pos 5_000_000;
  total_fees = pos 0;
  total_net = pos 5_000_000;
  transaction_count = pos 1;
  transaction_ids = codes "X1" ∷ [];
  status = codes "SETTLED";
}

abbrev pub bank_k1 : BankTransactionRecord Micro
bank_k1 = record {
  base = base_of (codes "BANK");
  bank_transaction_id = codes "K1";
  reference = codes "B1";
  amount = pos 5_000_000;
  transaction_type = codes "CREDIT";
  description = codes "STRIPE PAYOUT";
  status = codes "CLEARED";
}

-- Each of the records is stored as one letter.
abbrev pub load_letter : {A : Type 0} → String → A → Text → Option A
load_letter letter a raw = if text_eq raw (codes letter) then some a else none

abbrev pub dump_letter : AnyRecord Micro → Text
dump_letter (AnyRecord.payment r) = codes "P"
dump_letter (AnyRecord.processor r) = codes "X"
dump_letter (AnyRecord.batch r) = codes "S"
dump_letter (AnyRecord.bank r) = codes "K"
dump_letter r = codes "O"

abbrev pub sample_codec : Codec Micro
sample_codec = record {
  dump = dump_letter;
  load_payment = load_letter "P" payment_p1;
  load_invoice = λ raw. none;
  load_processor = load_letter "X" processor_x1;
  load_settlement = λ raw. none;
  load_batch = load_letter "S" batch_b1;
  load_bank = load_letter "K" bank_k1;
  load_refund = λ raw. none;
  loads = load_letter "X" ((codes "order_id", Value.str (codes "O1")) ∷ []);
}

abbrev pub empty_vault : Vault
empty_vault = record { entries = []; accepts = λ k. true }

-- The entries but the processor's record.
abbrev pub other_entries : List (Text × Text)
other_entries =
    (codes "IDX:ORDER:O1:PROCESSOR:X1", codes "REC:PROCESSOR:X1")
    ∷ (codes "IDX:REF:B1:BANK:K1", codes "REC:BANK:K1")
    ∷ (codes "REC:BANK:K1", codes "K")
    ∷ (codes "REC:BATCH:B1", codes "S")
    ∷ []

abbrev pub sample_vault : Vault
sample_vault = record empty_vault {
  entries = other_entries ++ (codes "REC:PROCESSOR:X1", codes "X") ∷ [];
}

abbrev pub empty_registry : FeePolicyRegistry Micro
empty_registry = record { policies = []; allow_global_fallback = false }

abbrev pub sample_engine : Engine Micro
sample_engine = record {
  db = sample_vault;
  codec = sample_codec;
  rules = record {
    amount_tolerance = pos 10_000;
    timing_window_days = pos 5;
    tolerance_window_days = pos 7;
    fuzzy_threshold = pos 350_000;
    time_window_seconds = pos 2_592_000_000_000;
    enable_fee_validation = false;
    topology = "GATEWAY";
    fee_registry = empty_registry;
  };
  ratio = λ a b. pos 0;
}

abbrev pub moment : Moment Micro
moment = record { hex = codes "AB12CD34"; time = λ n. pos n }
