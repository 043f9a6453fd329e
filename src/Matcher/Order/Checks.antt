-- ===== src/Matcher/Order/Checks.antt =====
-- recon/matcher.py, `reconcile_order`: the findings of steps 1, 1.5, 2, 3 and 5.
use text.Mathlib.Text.{◌==◌ as str_eq}
use vault_recon_ai.Prelude.{
  Bool, List, Option, [], if◌then◌else◌, length, ltb, map, none, not, some, ◌&&◌, ◌∷◌,
}
use vault_recon_ai.Dict.{dict_get}
use vault_recon_ai.Exceptions.{Finding, Reason}
use vault_recon_ai.Float.{Float}
use vault_recon_ai.Matcher.{Engine}
use vault_recon_ai.Matcher.Index.{Entry, IndexMap, order_indexes}
use vault_recon_ai.Matcher.Order.Targets.{
  Target, load_first, proc_txn, settle_record, target_currency, target_fee, target_id, target_name,
}
use vault_recon_ai.Result.{Result, ok, ◌>>=◌}
use vault_recon_ai.Rules.{compute_expected_fee, is_amount_matching, is_currency_matching}
use vault_recon_ai.Schemas.{InvoiceRecord, PaymentRecord}
use vault_recon_ai.Text.{codes, contains, lower}
use vault_recon_ai.Value.{Value, show_value, text_field, truthy_field}

module _ {F : Type 0} where
  -- findings[0], where `missing` was appended last.
  abbrev pub first_or : Finding F → List (Finding F) → Finding F
  first_or missing [] = missing
  first_or missing (f ∷ fs) = f

module _ {F : Type 0} ⦃d : Float F⦄ where
  open d use {lit, add, sub, lt, round}

  -- str(pay.metadata.get("is_partial", "")).lower() in ("true", "1")
  unfoldable pub is_partial : PaymentRecord F → Bool
  unfolding text_field show_value lower contains
  is_partial pay =
      contains (codes "true" ∷ codes "1" ∷ [])
        (lower (show_value (text_field pay.metadata (codes "is_partial"))))

  -- Step 1.
  unfoldable pub refund_findings :
      Engine F → Option IndexMap → PaymentRecord F → Result (List (Finding F))
  unfolding load_first order_indexes
  refund_findings eng omap pay = do
    found ←
        load_first eng.db eng.codec.load_refund (order_indexes eng.db omap pay.order_id "REFUND")
    elim found [
      | none ↦ ok []
      | some ref ↦
          let kind = if lt ref.amount pay.amount then "PARTIAL_REFUND" else "FULL_REFUND" in
          ok (
            record {
              type = kind;
              expected = Value.float pay.amount;
              actual = Value.float ref.amount;
              diff = round (sub pay.amount ref.amount) 2;
              related_ids = ref.refund_id ∷ pay.order_id ∷ [];
              reason = Reason.refunded pay.transaction_id ref.refund_id kind;
            }
            ∷ [])
    ]

  -- Step 1.5 at the order's invoice.
  unfoldable pub invoice_check : Engine F → PaymentRecord F → InvoiceRecord F → List (Finding F)
  unfolding truthy_field
  invoice_check eng pay inv =
      if lt (add inv.amount eng.rules.amount_tolerance) pay.amount
      then record {
        type = "OVERPAYMENT";
        expected = Value.float inv.amount;
        actual = Value.float pay.amount;
        diff = round (sub pay.amount inv.amount) 2;
        related_ids = inv.invoice_id ∷ pay.order_id ∷ [];
        reason = Reason.overpaid pay.amount inv.amount;
      }
        ∷ []
      else if lt pay.amount (sub inv.amount eng.rules.amount_tolerance)
          && not (truthy_field pay.metadata (codes "is_partial"))
      then record {
        type = "AMOUNT_MISMATCH";
        expected = Value.float inv.amount;
        actual = Value.float pay.amount;
        diff = round (sub inv.amount pay.amount) 2;
        related_ids = inv.invoice_id ∷ pay.order_id ∷ [];
        reason = Reason.invoice_differs pay.amount inv.amount;
      }
        ∷ []
      else []

  unfoldable pub invoice_findings :
      Engine F → Option IndexMap → PaymentRecord F → Result (List (Finding F))
  unfolding load_first order_indexes invoice_check
  invoice_findings eng omap pay = do
    found ←
        load_first eng.db eng.codec.load_invoice (order_indexes eng.db omap pay.order_id "INVOICE")
    elim found [ none ↦ ok [] | some inv ↦ ok (invoice_check eng pay inv) ]

  -- Step 2: several processor transactions, of which several are unconsumed.
  unfoldable pub duplicate_processors : PaymentRecord F → List Entry → List Entry → List (Finding F)
  duplicate_processors pay procs available =
      if ltb 1 (length procs) && ltb 1 (length available)
      then record {
        type = "DUPLICATE_PROCESSOR";
        expected = Value.float pay.amount;
        actual = Value.float pay.amount;
        diff = lit 0 0;
        related_ids = map (λ e. e.1) procs;
        reason = Reason.several_processors pay.order_id;
      }
        ∷ []
      else []

  unfoldable pub missing_processor : PaymentRecord F → Finding F
  missing_processor pay = record {
    type = "MISSING_PROCESSOR";
    expected = Value.float pay.amount;
    actual = Value.float (lit 0 0);
    diff = pay.amount;
    related_ids = pay.order_id ∷ [];
    reason = Reason.no_processor pay.order_id;
  }

  -- Step 3.
  unfoldable pub currency_findings : PaymentRecord F → Target F → List (Finding F)
  unfolding is_currency_matching
  currency_findings pay t =
      if is_currency_matching pay.currency (target_currency t)
      then []
      else record {
        type = "CURRENCY_MISMATCH";
        expected = Value.str pay.currency;
        actual = Value.str (target_currency t);
        diff = lit 0 0;
        related_ids = target_id t ∷ pay.order_id ∷ [];
        reason = Reason.currency_differs pay.currency (target_currency t);
      }
        ∷ []

  -- proc_txn.metadata.get("fee_policy_id") or pay.metadata.get("fee_policy_id")
  unfoldable pub fee_policy_id : PaymentRecord F → Target F → Option (Value F)
  unfolding dict_get truthy_field
  fee_policy_id pay (settle_record s) = dict_get pay.metadata (codes "fee_policy_id")
  fee_policy_id pay (proc_txn p) =
      if truthy_field p.metadata (codes "fee_policy_id")
      then dict_get p.metadata (codes "fee_policy_id")
      else dict_get pay.metadata (codes "fee_policy_id")

  -- Step 5 at the fee that the policy gives.
  unfoldable pub fee_check : Engine F → PaymentRecord F → Target F → Option F → List (Finding F)
  unfolding is_amount_matching fee_policy_id
  fee_check eng pay t none =
      record {
        type = "UNKNOWN_FEE_POLICY";
        expected = Value.float (lit 0 0);
        actual = Value.float (target_fee t);
        diff = target_fee t;
        related_ids = pay.transaction_id ∷ pay.order_id ∷ [];
        reason = Reason.no_fee_policy pay.payment_method pay.currency (fee_policy_id pay t);
      }
      ∷ []
  fee_check eng pay t (some expected) =
      if is_amount_matching expected (target_fee t) eng.rules.amount_tolerance
      then []
      else record {
        type = "FEE_MISMATCH";
        expected = Value.float expected;
        actual = Value.float (target_fee t);
        diff = round (sub (target_fee t) expected) 2;
        related_ids = pay.transaction_id ∷ pay.order_id ∷ [];
        reason = Reason.fee_differs (target_fee t) expected (round (sub (target_fee t) expected) 2);
      }
        ∷ []

  -- The fee that the engine's rules expect of a payment at a target.
  unfoldable pub expected_fee : Engine F → PaymentRecord F → Target F → Result (Option F)
  unfolding compute_expected_fee fee_policy_id
  expected_fee eng pay t =
      compute_expected_fee eng.rules pay.amount (some pay.payment_method) (some (target_name t))
        (some pay.currency) (some pay.merchant_id) (fee_policy_id pay t)

  unfoldable pub fee_findings : Engine F → PaymentRecord F → Target F → Result (List (Finding F))
  unfolding fee_check expected_fee
  fee_findings eng pay t =
      if eng.rules.enable_fee_validation && not (str_eq eng.rules.topology "BANK_GL")
      then (do fee ← expected_fee eng pay t; ok (fee_check eng pay t fee))
      else ok []
