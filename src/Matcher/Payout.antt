-- ===== src/Matcher/Payout.antt =====
-- recon/matcher.py: when `reconcile_batch` matches.
use vault_recon_ai.Prelude.{
  List, Option, [], ap, arith, length, ltb, none, refl, some, true, ◌∷◌, ◌≡◌,
}
use vault_recon_ai.Exceptions.{FinancialException, Moment}
use vault_recon_ai.Float.{Float}
use vault_recon_ai.Matcher.{Engine, Outcome, ReconciliationMatch, load_at}
use vault_recon_ai.Matcher.Batch.{
  bank_indexes, batch_match, check_payout, reconcile_batch, reconcile_entries, settle_batch,
}
use vault_recon_ai.Matcher.Index.{Entry, IndexMap}
use vault_recon_ai.Matcher.Order.Targets.{load_first}
use vault_recon_ai.Result.{>>=-eq-ok, ok, ok-injective}
use vault_recon_ai.Rules.{is_amount_matching, is_currency_matching, is_within_time_window}
use vault_recon_ai.Schemas.{BankTransactionRecord, SettlementBatch}

no_match : {A : Type 0} {a : A} → none ≡ some a → ⊥
no_match h = cc

module _ {F : Type 0} ⦃d : Float F⦄ (eng : Engine F) where
  -- One bank entry refers to the batch, and its record agrees in currency, amount and time.
  pub record PayoutAgrees (rmap : Option IndexMap) (b : SettlementBatch F)
      (txn : BankTransactionRecord F) : Type 0 where
    pub entry : Entry
    pub only : bank_indexes eng rmap b.batch_id ≡ entry ∷ []
    pub stored : load_at eng.db eng.codec.load_bank entry.1 ≡ ok (some txn)
    pub same_currency : is_currency_matching b.currency txn.currency ≡ true
    pub same_amount : is_amount_matching b.total_net txn.amount eng.rules.amount_tolerance ≡ true
    pub in_time : is_within_time_window eng.rules b.timestamp txn.timestamp ≡ true

  check_payout-match :
      (now : Moment F) (b : SettlementBatch F) (txn : BankTransactionRecord F)
      {m : ReconciliationMatch F} {x : Option (FinancialException F)}
      → check_payout eng now b txn ≡ (some m, x)
      → (is_currency_matching b.currency txn.currency ≡ true)
        × (is_amount_matching b.total_net txn.amount eng.rules.amount_tolerance ≡ true)
        × (is_within_time_window eng.rules b.timestamp txn.timestamp ≡ true)
        × (m ≡ batch_match eng now b txn)
  unfolding check_payout
  check_payout-match now b txn h = ground arith

  settle_batch-match :
      (now : Moment F) (b : SettlementBatch F) (found : Option (BankTransactionRecord F))
      {m : ReconciliationMatch F} {x : Option (FinancialException F)}
      → settle_batch eng now b found ≡ (some m, x)
      → (txn : BankTransactionRecord F) × (found ≡ some txn)
        × (check_payout eng now b txn ≡ (some m, x))
  unfolding settle_batch
  settle_batch-match now b none h = absurd (no_match (ap (λ (o : Outcome F). o.0) h))
  settle_batch-match now b (some txn) h = (txn, refl, h)

  reconcile_entries-match :
      (now : Moment F) (b : SettlementBatch F) (found : List Entry) {m : ReconciliationMatch F}
      {x : Option (FinancialException F)}
      → reconcile_entries eng now b found ≡ ok (some m, x)
      → (e : Entry) × (txn : BankTransactionRecord F) × (found ≡ e ∷ [])
        × (load_at eng.db eng.codec.load_bank e.1 ≡ ok (some txn))
        × (check_payout eng now b txn ≡ (some m, x))
  unfolding reconcile_entries settle_batch load_first
  reconcile_entries-match now b [] h =
      absurd (no_match (ap (λ (o : Outcome F). o.0) (ok-injective h)))
  reconcile_entries-match now b (e ∷ f ∷ fs) h =
      let many : ltb 1 (length (e ∷ f ∷ fs)) ≡ true = ground arith in
      absurd (no_match (ap (λ (o : Outcome F). o.0) (ok-injective (rw many at h))))
  reconcile_entries-match now b (e ∷ []) h =
      let (found, at, rest) = >>=-eq-ok (load_at eng.db eng.codec.load_bank e.1) _ h in
      let (txn, is, checked) = settle_batch-match now b found (ok-injective rest) in
      (e, txn, refl, rw is at at, checked)

  -- A batch that matches has a payout that agrees, and the match quotes the batch and the payout.
  pub reconcile_batch-PayoutAgrees :
      (rmap : Option IndexMap) (now : Moment F) (b : SettlementBatch F) {m : ReconciliationMatch F}
      {x : Option (FinancialException F)}
      → reconcile_batch eng rmap now b ≡ ok (some m, x)
      → (txn : BankTransactionRecord F) × PayoutAgrees rmap b txn
        × (m.settlement_batch_id ≡ some b.batch_id)
        × (m.bank_entry_id ≡ some txn.bank_transaction_id)
        × (m.net_amount ≡ b.total_net)
  unfolding reconcile_batch
  reconcile_batch-PayoutAgrees rmap now b h =
      let (e, txn, only, stored, checked) =
        reconcile_entries-match now b (bank_indexes eng rmap b.batch_id) h in
      let (currency, amount, time, is) = check_payout-match now b txn checked in
      (
        txn,
        record {
          entry = e;
          only = only;
          stored = stored;
          same_currency = currency;
          same_amount = amount;
          in_time = time;
        },
        rw is refl,
        rw is refl,
        rw is refl,
      )
