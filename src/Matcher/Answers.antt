-- ===== src/Matcher/Answers.antt =====
-- recon/matcher.py: the report of `reconcile_all` against the calls of its loops.
pub mod Loops
pub mod Whole
use vault_recon_ai.Prelude.{List, [], none, some, ◌∷◌, ◌≡◌}
use vault_recon_ai.Dict.{Dict}
use vault_recon_ai.Exceptions.{FinancialException, Moment}
use vault_recon_ai.Float.{Float}
use vault_recon_ai.Matcher.{Engine, ReconciliationMatch}
use vault_recon_ai.Matcher.Batch.{reconcile_batch}
use vault_recon_ai.Matcher.Index.{Entry, IndexMap}
use vault_recon_ai.Matcher.Order.{reconcile_order}
use vault_recon_ai.Matcher.Outcomes.{IsFresh}
use vault_recon_ai.Result.{ok}
use vault_recon_ai.Schemas.{PaymentRecord, SettlementBatch}
use vault_recon_ai.Text.{Text, codes}

-- Each input in turn has the next match or the next exception.
pub data Answers {A M X : Type 0} (P : A → M → Type 0) (Q : A → X → Type 0)
    : List A → List M → List X → Type 0 where
  none_left : Answers P Q [] [] []
  with_match :
      {a : A} {inputs : List A} {m : M} {ms : List M} {xs : List X}
      → P a m
      → Answers P Q inputs ms xs
      → Answers P Q (a ∷ inputs) (m ∷ ms) xs
  with_exception :
      {a : A} {inputs : List A} {x : X} {ms : List M} {xs : List X}
      → Q a x
      → Answers P Q inputs ms xs
      → Answers P Q (a ∷ inputs) ms (x ∷ xs)

pub Answers-map :
    {A M X : Type 0} {P P' : A → M → Type 0} {Q Q' : A → X → Type 0} {inputs : List A} {ms : List M}
    {xs : List X}
    → ((a : A) (m : M) → P a m → P' a m)
    → ((a : A) (x : X) → Q a x → Q' a x)
    → Answers P Q inputs ms xs
    → Answers P' Q' inputs ms xs
Answers-map f g none_left = none_left
Answers-map f g (with_match p later) = with_match (f _ _ p) (Answers-map f g later)
Answers-map f g (with_exception q later) = with_exception (g _ _ q) (Answers-map f g later)

-- An exception of a processor record that has no payment.
abbrev pub IsProcessorOnly : {F : Type 0} → FinancialException F → Type 0
IsProcessorOnly x =
    (x.exception_type ≡ codes "MISSING_INTERNAL") × (x.primary_record_type ≡ codes "PROCESSOR")

module _ {F : Type 0} ⦃d : Float F⦄ (eng : Engine F) where
  -- The call for a payment gave the match, which names it.
  abbrev pub OrderMatched :
      IndexMap → Dict (List Entry) → PaymentRecord F → ReconciliationMatch F → Type 0
  OrderMatched omap tmap pay m =
      (now : Moment F) × (consumed consumed' : List Text) × (reconcile_order eng (some omap)
          (some tmap) now pay consumed
        ≡ ok ((some m, none), consumed'))
      × (m.internal_payment_id ≡ some pay.transaction_id)

  -- The call for it gave the exception, which is open and bears its merchant.
  abbrev pub OrderExcepted :
      IndexMap → Dict (List Entry) → PaymentRecord F → FinancialException F → Type 0
  OrderExcepted omap tmap pay x =
      (now : Moment F) × (consumed : List Text) × (reconcile_order eng (some omap) (some tmap) now
          pay consumed
        ≡ ok ((none, some x), consumed))
      × IsFresh pay x

  -- The entry holds a batch, and the call for it gave the match, or the exception.
  abbrev pub BatchMatched : IndexMap → Entry → ReconciliationMatch F → Type 0
  BatchMatched rmap e m =
      (now : Moment F) × (b : SettlementBatch F) × (eng.codec.load_batch e.1 ≡ some b)
      × (reconcile_batch eng (some rmap) now b ≡ ok (some m, none))

  abbrev pub BatchExcepted : IndexMap → Entry → FinancialException F → Type 0
  BatchExcepted rmap e x =
      (now : Moment F) × (b : SettlementBatch F) × (eng.codec.load_batch e.1 ≡ some b)
      × (reconcile_batch eng (some rmap) now b ≡ ok (none, some x))
