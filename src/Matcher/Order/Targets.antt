-- ===== src/Matcher/Order/Targets.antt =====
-- recon/matcher.py, `reconcile_order`: step 2, the record that a payment is held against, and the
-- "common fields" of the two classes that it may have.
use mathlib.Core.Option
use vault_recon_ai.Prelude.{Bool, List, Option, [], false, none, some, true, ◌∷◌}
use vault_recon_ai.Dict.{Dict}
use vault_recon_ai.Matcher.{Engine, load_at}
use vault_recon_ai.Matcher.Index.{Entry, settle_indexes, unconsumed}
use vault_recon_ai.Prelude.Int.{ℤ}
use vault_recon_ai.Result.{Result, ok, ◌>>=◌}
use vault_recon_ai.Schemas.{PaymentRecord, ProcessorTransaction, SettlementRecord}
use vault_recon_ai.Text.{Text, codes}
use vault_recon_ai.Value.{Value, text_field}
use vault_recon_ai.Vault.{Vault}

pub data Target (F : Type 0) : Type 0 where
  proc_txn : ProcessorTransaction F → Target F
  settle_record : SettlementRecord F → Target F

-- The first entry's record, where there is an entry.
unfoldable pub load_first {ℓ} :
    {A : Type ℓ} → Vault → (Text → Option A) → List Entry → Result (Option A)
unfolding load_at
load_first db load [] = ok none
load_first db load (e ∷ es) = load_at db load e.1

module _ {F : Type 0} where
  abbrev pub is_processor : Target F → Bool
  is_processor (proc_txn p) = true
  is_processor (settle_record s) = false

  abbrev pub target_gross : Target F → F
  target_gross (proc_txn p) = p.gross_amount
  target_gross (settle_record s) = s.gross_amount

  abbrev pub target_fee : Target F → F
  target_fee (proc_txn p) = p.fee_amount
  target_fee (settle_record s) = s.fees

  abbrev pub target_net : Target F → F
  target_net (proc_txn p) = p.net_amount
  target_net (settle_record s) = s.net_amount

  abbrev pub target_currency : Target F → Text
  target_currency (proc_txn p) = p.currency
  target_currency (settle_record s) = s.currency

  abbrev pub target_id : Target F → Text
  target_id (proc_txn p) = p.processor_transaction_id
  target_id (settle_record s) = s.settlement_id

  abbrev pub target_batch : Target F → Option Text
  target_batch (proc_txn p) = p.settlement_batch_id
  target_batch (settle_record s) = s.settlement_batch_id

  abbrev pub target_name : Target F → Text
  target_name (proc_txn p) = p.processor_name
  target_name (settle_record s) = codes "SETTLEMENT"

  abbrev pub target_timestamp : Target F → ℤ
  target_timestamp (proc_txn p) = p.timestamp
  target_timestamp (settle_record s) = s.timestamp

  -- "" for a settlement.
  abbrev pub target_order : Target F → Text
  target_order (proc_txn p) = p.order_id
  target_order (settle_record s) = []

  unfoldable pub target_description : Target F → Value F
  unfolding text_field
  target_description (proc_txn p) = text_field p.metadata (codes "Description")
  target_description (settle_record s) = Value.str []

  -- The processor transaction, or else the first unconsumed settlement.
  unfoldable pub or_settlement :
      Engine F
      → Option (Dict (List Entry))
      → PaymentRecord F
      → List Text
      → Option (ProcessorTransaction F)
      → Result (Option (Target F))
  unfolding load_first settle_indexes unconsumed
  or_settlement eng tmap pay consumed (some p) = ok (some (proc_txn p))
  or_settlement eng tmap pay consumed none = do
    settled ←
        load_first eng.db eng.codec.load_settlement
          (unconsumed consumed (settle_indexes eng.db tmap pay.transaction_id pay.order_id))
    ok (Option.map settle_record settled)

  -- The first unconsumed processor transaction, or else the first unconsumed settlement.
  unfoldable pub find_target :
      Engine F
      → Option (Dict (List Entry))
      → PaymentRecord F
      → List Entry
      → List Text
      → Result (Option (Target F))
  unfolding load_first or_settlement
  find_target eng tmap pay available consumed = do
    found ← load_first eng.db eng.codec.load_processor available
    or_settlement eng tmap pay consumed found
