-- ===== src/Matcher/ReturnsTests.antt =====
-- recon/matcher.py on the sample vault: the hypotheses under which a call returns.
use mathlib.Core.Option.{some-injective}
use vault_recon_ai.Prelude.{
  All, Bool, List, Option, [], arith, false, if◌then◌else◌, is_some, none, not, refl, some, true, ℕ,
  ◌∷◌, ◌≡◌,
}
use vault_recon_ai.Dict.{Dict}
use vault_recon_ai.Exceptions.{Moment}
use vault_recon_ai.Fees.{FeePolicy, match_policy}
use vault_recon_ai.Float.Micro.{Micro, micro_float}
use vault_recon_ai.Matcher.{load_at}
use vault_recon_ai.Matcher.Batch.{bank_indexes}
use vault_recon_ai.Matcher.Index.{
  Entry, IndexMap, build_index, build_settle, indexes_of, order_indexes, settle_indexes, unconsumed,
}
use vault_recon_ai.Matcher.Order.{reconcile_order}
use vault_recon_ai.Matcher.Order.Checks.{fee_policy_id}
use vault_recon_ai.Matcher.Order.Targets.{Target, find_target, load_first, or_settlement, proc_txn}
use vault_recon_ai.Matcher.Returns.{
  IsPriceable, IsReadable, OrderIsReadable, Returns, is_plain, policy_at, reconcile_order-Returns,
}
use vault_recon_ai.Matcher.Returns.Whole.{RunIsReadable, reconcile_all-Returns}
use vault_recon_ai.Matcher.Run.{reconcile_all}
use vault_recon_ai.Prelude.Int.{pos}
use vault_recon_ai.Result.{Result, none_ne_some, ok, ok-injective}
use vault_recon_ai.Rules.{choose_policy}
use vault_recon_ai.Sample.{
  batch_b1, moment, payment_p1, processor_x1, sample_codec, sample_engine, sample_vault,
}
use vault_recon_ai.Schemas.{SettlementBatch}
use vault_recon_ai.Text.{Text, codes, contains, last_part, text_eq}
use vault_recon_ai.Vault.{get, scan_prefix}

abbrev moments : ℕ → Moment Micro
moments n = moment

abbrev order_map : IndexMap
order_map = build_index (scan_prefix sample_vault (codes "IDX:ORDER:"))

abbrev settle_map : Dict (List Entry)
settle_map = build_settle (scan_prefix sample_vault (codes "IDX:TXN:"))

reads_as :
    {A : Type 0} (load : Text → Option A) (v raw : Text)
    → some v ≡ some raw
    → is_some (load v) ≡ true
    → is_some (load raw) ≡ true
reads_as load v raw at h = rw (← some-injective _ _ at) h

x-IsReadable :
    IsReadable sample_vault sample_codec.load_processor (codes "", codes "REC:PROCESSOR:X1")
unfolding get text_eq
x-IsReadable raw at full = reads_as sample_codec.load_processor (codes "X") raw at refl

k-IsReadable : IsReadable sample_vault sample_codec.load_bank (codes "", codes "REC:BANK:K1")
unfolding get text_eq
k-IsReadable raw at full = reads_as sample_codec.load_bank (codes "K") raw at refl

-- The target is the processor's record, which names no policy.
plain_policy :
    (consumed : List Text) (b : Bool) (t : Target Micro)
    → find_target sample_engine
        (some [])
        payment_p1
        (if b then (codes "IDX:ORDER:O1:PROCESSOR:X1", codes "REC:PROCESSOR:X1") ∷ [] else [])
        consumed
      ≡ ok (some t)
    → is_plain (fee_policy_id payment_p1 t) ≡ true
unfolding find_target load_first or_settlement load_at get fee_policy_id unconsumed text_eq
    settle_indexes
plain_policy consumed true t h =
    let id : proc_txn processor_x1 ≡ t = some-injective _ _ (ok-injective h) in rw (← id) refl
plain_policy consumed false t h =
    absurd (let none_found : ◌≡◌ {A = Option (Target Micro)} none (some t) = ok-injective h in cc)

no_policy :
    {p : FeePolicy Micro} → ◌≡◌ {A = Result (Option (FeePolicy Micro))} (ok none) (ok (some p)) → ⊥
no_policy h = none_ne_some (ok-injective h)

-- The registry has no policy for it.
priced :
    (consumed : List Text) (b : Bool) (t : Target Micro)
    → find_target sample_engine
        (some [])
        payment_p1
        (if b then (codes "IDX:ORDER:O1:PROCESSOR:X1", codes "REC:PROCESSOR:X1") ∷ [] else [])
        consumed
      ≡ ok (some t)
    → (p : FeePolicy Micro) → policy_at sample_engine payment_p1 t ≡ ok (some p)
    → IsPriceable p payment_p1.amount
unfolding find_target load_first or_settlement load_at get fee_policy_id unconsumed text_eq
    settle_indexes choose_policy match_policy
priced consumed true t h p chosen =
    let id : proc_txn processor_x1 ≡ t = some-injective _ _ (ok-injective h) in
    absurd (no_policy (rw (← id) at chosen))
priced consumed false t h p chosen =
    absurd (let none_found : ◌≡◌ {A = Option (Target Micro)} none (some t) = ok-injective h in cc)

sample-OrderIsReadable :
    (consumed : List Text)
    → OrderIsReadable sample_engine (some order_map) (some settle_map) payment_p1 consumed
unfolding order_indexes settle_indexes build_index build_settle scan_prefix indexes_of unconsumed
    last_part text_eq
sample-OrderIsReadable consumed = record {
  refunds = tt;
  invoices = tt;
  processors = (x-IsReadable, tt);
  settlements = tt;
  policy = λ t found. plain_policy consumed (not (contains consumed (codes "X1"))) t found;
  fee = λ t found. priced consumed (not (contains consumed (codes "X1"))) t found;
}

sample_batches :
    (raw : Text) (b : SettlementBatch Micro)
    → sample_codec.load_batch raw ≡ some b
    → All (IsReadable sample_vault sample_codec.load_bank) (
        bank_indexes sample_engine
          (some (build_index (scan_prefix sample_vault (codes "IDX:REF:"))))
          b.batch_id)
unfolding bank_indexes build_index scan_prefix
sample_batches raw b at =
    let same_batch : batch_b1 ≡ b = ground arith in rw (← same_batch) (k-IsReadable, tt)

sample-RunIsReadable : RunIsReadable sample_engine (payment_p1 ∷ [])
unfolding scan_prefix text_eq
sample-RunIsReadable = record {
  orders = (sample-OrderIsReadable, tt);
  processors = (refl, tt);
  batches = (refl, tt);
  banks = sample_batches;
}

reconcile_order-Returns_example :
    Returns (reconcile_order sample_engine (some order_map) (some settle_map) moment payment_p1 [])
reconcile_order-Returns_example =
    reconcile_order-Returns sample_engine (some order_map) (some settle_map) moment payment_p1 []
      (sample-OrderIsReadable [])

reconcile_all-Returns_example :
    Returns (reconcile_all sample_engine (pos 0) (pos 1_000_000) moments (some (payment_p1 ∷ [])))
reconcile_all-Returns_example =
    reconcile_all-Returns sample_engine (pos 0) (pos 1_000_000) moments (payment_p1 ∷ [])
      sample-RunIsReadable
