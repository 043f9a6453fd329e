-- ===== src/Matcher/Returns.antt =====
-- recon/matcher.py: when a call of `reconcile_order` returns.
pub mod Whole
use mathlib.Core.Option
use text.Mathlib.Text.{◌==◌ as str_eq}
use vault_recon_ai.Prelude.{
  All, Bool, List, Option, [], ap, false, if◌then◌else◌, is_empty, is_some, length, ltb, map, none,
  not, refl, some, true, ℕ, ◌&&◌, ◌++◌, ◌||◌, ◌∙◌, ◌∷◌, ◌≡◌,
}
use vault_recon_ai.Decimal.{Decimal, decimal_add, decimal_mul, finite, percent, quantize_cents}
use vault_recon_ai.Dict.{Dict}
use vault_recon_ai.Exceptions.{Finding, Moment}
use vault_recon_ai.Fees.{FeePolicy, calculate_fee, raw_fee}
use vault_recon_ai.Float.{Float}
use vault_recon_ai.Matcher.{Engine, load_at}
use vault_recon_ai.Matcher.Index.{Entry, IndexMap, order_indexes, settle_indexes, unconsumed}
use vault_recon_ai.Matcher.Order.{evaluate_target, proceed, reconcile_order, reconcile_unique}
use vault_recon_ai.Matcher.Order.Checks.{
  duplicate_processors, expected_fee, fee_findings, fee_policy_id, invoice_findings,
  refund_findings,
}
use vault_recon_ai.Matcher.Order.Targets.{
  Target, find_target, load_first, or_settlement, target_name,
}
use vault_recon_ai.Matcher.Sound.{FoundTarget}
use vault_recon_ai.Prelude.Int.{ℤ}
use vault_recon_ai.Result.{Result, of_option, ok, raised, ◌>>=◌}
use vault_recon_ai.Rules.{choose_policy, compute_expected_fee, fee_of}
use vault_recon_ai.Schemas.{PaymentRecord, ProcessorTransaction}
use vault_recon_ai.Text.{Text, codes, contains, last_part}
use vault_recon_ai.Value.{Value, truthy, truthy_field}
use vault_recon_ai.Vault.{Vault, get}

-- A call that returns.
abbrev pub Returns {ℓ} : {A : Type ℓ} → Result A → Type ℓ
Returns {A = A} r = (a : A) × (r ≡ ok a)

pub bind-Returns :
    {A B : Type 0} (m : Result A) (f : A → Result B)
    → Returns m
    → ((a : A) → m ≡ ok a → Returns (f a))
    → Returns (m >>= f)
bind-Returns (ok a) f r next = next a refl
bind-Returns raised f (a, h) next = absurd (cc)

-- The key holds nothing, an empty text, or a text that the class accepts.
abbrev pub IsReadable : {A : Type 0} → Vault → (Text → Option A) → Entry → Type 0
IsReadable db load e =
    (raw : Text) → get db e.1 ≡ some raw → is_empty raw ≡ false → is_some (load raw) ≡ true

unfold_some :
    {A : Type 0} (o : Option A) → is_some o ≡ true → Returns (of_option (Option.map some o))
unfold_some (some a) h = (some a, refl)
unfold_some none h = absurd (cc)

pub if-Returns :
    {A : Type 0} (b : Bool) (x y : Result A) → Returns x → Returns y → Returns (if b then x else y)
if-Returns true x y p q = p
if-Returns false x y p q = q

option-Returns :
    {A B : Type 0} (o : Option A) (y : Result B) (f : A → Result B)
    → Returns y
    → ((a : A) → Returns (f a))
    → Returns (elim o [ none ↦ y | some a ↦ f a ])
option-Returns none y f r all = r
option-Returns (some a) y f r all = all a

load_raw :
    {A : Type 0} (load : Text → Option A) (o : Option Text)
    → ((raw : Text) → o ≡ some raw → is_empty raw ≡ false → is_some (load raw) ≡ true)
    → Returns (elim o [
      | none ↦ ok none
      | some raw ↦ if is_empty raw then ok none else of_option (Option.map some (load raw))
    ])
load_raw load none readable = (none, refl)
load_raw load (some []) readable = (none, refl)
load_raw load (some (c ∷ s)) readable = unfold_some (load (c ∷ s)) (readable (c ∷ s) refl refl)

pub load_first-Returns :
    {A : Type 0} (db : Vault) (load : Text → Option A) (es : List Entry)
    → All (IsReadable db load) es
    → Returns (load_first db load es)
unfolding load_first load_at
load_first-Returns db load [] all = (none, refl)
load_first-Returns db load (e ∷ es) (readable, all) = load_raw load (get db e.1) readable

kept :
    (P : Entry → Type 0) (e : Entry) (es : List Entry) (b : Bool)
    → P e
    → All P es
    → All P (if b then e ∷ es else es)
kept P e es true p all = (p, all)
kept P e es false p all = all

unconsumed-All :
    (P : Entry → Type 0) (consumed : List Text) (es : List Entry)
    → All P es
    → All P (unconsumed consumed es)
unfolding unconsumed
unconsumed-All P consumed [] all = tt
unconsumed-All P consumed (e ∷ es) (p, all) =
    kept P e (unconsumed consumed es) (not (contains consumed (last_part e.1))) p
      (unconsumed-All P consumed es all)

-- A policy id that `dict.get` can look up: no list or dict, unless it is empty and so not looked up.
abbrev pub is_plain : {F : Type 0} → Option (Value F) → Bool
is_plain (some (Value.container s e)) = e
is_plain _ = true

quantized-Returns : (o : Option Decimal) → is_some o ≡ true → Returns (of_option o)
quantized-Returns (some x) h = (x, refl)
quantized-Returns none h = absurd (cc)

module _ {F : Type 0} ⦃d : Float F⦄ where
  open d use {round, to_decimal}

  -- A fee that Python's decimals can compute: the amount and the policy's rate and charge are no
  -- infinity and no NaN, and the rounded fee has at most 28 digits.
  pub record IsPriceable (p : FeePolicy F) (amount : F) : Type 0 where
    pub amount_finite : (c : ℤ) × (e : ℕ) × (to_decimal (round amount 4) ≡ finite c e)
    pub rate_finite : (c : ℤ) × (e : ℕ) × (to_decimal p.percentage_rate ≡ finite c e)
    pub charge_finite : (c : ℤ) × (e : ℕ) × (to_decimal p.fixed_charge ≡ finite c e)
    pub fee_small :
        (raw : Decimal) → raw_fee p amount ≡ ok raw → is_some (quantize_cents raw) ≡ true

  raw_fee-Returns :
      (p : FeePolicy F) (amount : F) → IsPriceable p amount → Returns (raw_fee p amount)
  unfolding raw_fee percent decimal_mul decimal_add
  raw_fee-Returns p amount can =
      let (ac, ae, a) = can.amount_finite in
      let (rc, re, r) = can.rate_finite in
      let (fc, fe, f) = can.charge_finite in rw (a, r, f) (_, refl)

  calculate_fee-Returns :
      (p : FeePolicy F) (amount : F) → IsPriceable p amount → Returns (calculate_fee p amount)
  unfolding calculate_fee
  calculate_fee-Returns p amount can =
      bind-Returns (raw_fee p amount) _ (raw_fee-Returns p amount can) (λ raw at.
        bind-Returns (of_option (quantize_cents raw)) _
          (quantized-Returns (quantize_cents raw) (can.fee_small raw at)) (λ fee at2. (_, refl)))

  fee_of-Returns :
      (amount : F) (o : Option (FeePolicy F))
      → ((p : FeePolicy F) → o ≡ some p → IsPriceable p amount)
      → Returns (fee_of amount o)
  unfolding fee_of
  fee_of-Returns amount none can = (_, refl)
  fee_of-Returns amount (some p) can =
      bind-Returns (calculate_fee p amount) _ (calculate_fee-Returns p amount (can p refl))
        (λ fee at. (_, refl))

module _ {F : Type 0} ⦃d : Float F⦄ (eng : Engine F) where
  -- The fee policy for a payment at a target.
  abbrev pub policy_at : PaymentRecord F → Target F → Result (Option (FeePolicy F))
  policy_at pay t =
      choose_policy eng.rules (some pay.payment_method) (some (target_name t)) (some pay.currency)
        (some pay.merchant_id) (fee_policy_id pay t)

  -- What the store holds for an order: its entries name records that can be read, the fee
  -- policy id of the target is one that can be looked up, and the fee of the policy that is found
  -- can be computed.
  pub record OrderIsReadable (omap : Option IndexMap) (tmap : Option (Dict (List Entry)))
      (pay : PaymentRecord F) (consumed : List Text) : Type 0 where
    pub refunds :
        All
          (IsReadable eng.db eng.codec.load_refund)
          (order_indexes eng.db omap pay.order_id "REFUND")
    pub invoices :
        All
          (IsReadable eng.db eng.codec.load_invoice)
          (order_indexes eng.db omap pay.order_id "INVOICE")
    pub processors :
        All
          (IsReadable eng.db eng.codec.load_processor)
          (order_indexes eng.db omap pay.order_id "PROCESSOR")
    pub settlements :
        All
          (IsReadable eng.db eng.codec.load_settlement)
          (settle_indexes eng.db tmap pay.transaction_id pay.order_id)
    pub policy :
        (t : Target F)
        → FoundTarget eng omap tmap pay consumed t
        → is_plain (fee_policy_id pay t) ≡ true
    pub fee :
        (t : Target F)
        → FoundTarget eng omap tmap pay consumed t
        → (p : FeePolicy F) → policy_at pay t ≡ ok (some p)
        → IsPriceable p pay.amount

  choose_policy-Returns :
      (method name currency merchant : Option Text) (id : Option (Value F))
      → is_plain id ≡ true
      → Returns (choose_policy eng.rules method name currency merchant id)
  unfolding choose_policy
  choose_policy-Returns method name currency merchant none can_look_up = (_, refl)
  choose_policy-Returns method name currency merchant (some Value.null) can_look_up = (_, refl)
  choose_policy-Returns method name currency merchant (some (Value.bool b)) can_look_up =
      if-Returns b _ _ (_, refl) (_, refl)
  choose_policy-Returns method name currency merchant (some (Value.int n)) can_look_up =
      if-Returns (truthy {F = F} (Value.int n)) _ _ (_, refl) (_, refl)
  choose_policy-Returns method name currency merchant (some (Value.float x)) can_look_up =
      if-Returns (truthy (Value.float x)) _ _ (_, refl) (_, refl)
  choose_policy-Returns method name currency merchant (some (Value.str s)) can_look_up =
      if-Returns (truthy {F = F} (Value.str s)) _ _ (_, refl) (_, refl)
  choose_policy-Returns method name currency merchant (some (Value.container s e)) can_look_up =
      rw can_look_up (_, refl)

  expected_fee-Returns :
      (pay : PaymentRecord F) (t : Target F)
      → is_plain (fee_policy_id pay t) ≡ true
      → ((p : FeePolicy F) → policy_at pay t ≡ ok (some p) → IsPriceable p pay.amount)
      → Returns (expected_fee eng pay t)
  unfolding expected_fee compute_expected_fee
  expected_fee-Returns pay t can_look_up can =
      if-Returns (not eng.rules.enable_fee_validation || str_eq eng.rules.topology "BANK_GL") _ _
        (_, refl)
        (bind-Returns
          (choose_policy eng.rules (some pay.payment_method) (some (target_name t))
            (some pay.currency) (some pay.merchant_id) (fee_policy_id pay t))
          _
          (choose_policy-Returns (some pay.payment_method) (some (target_name t))
            (some pay.currency) (some pay.merchant_id) (fee_policy_id pay t) can_look_up)
          (λ policy at. fee_of-Returns pay.amount policy (λ p is. can p (at ∙ ap ok is))))

  fee_findings-Returns :
      (pay : PaymentRecord F) (t : Target F)
      → is_plain (fee_policy_id pay t) ≡ true
      → ((p : FeePolicy F) → policy_at pay t ≡ ok (some p) → IsPriceable p pay.amount)
      → Returns (fee_findings eng pay t)
  unfolding fee_findings
  fee_findings-Returns pay t can_look_up can =
      if-Returns (eng.rules.enable_fee_validation && not (str_eq eng.rules.topology "BANK_GL")) _ _
        (bind-Returns (expected_fee eng pay t) _ (expected_fee-Returns pay t can_look_up can)
          (λ fee at. (_, refl)))
        (_, refl)

  or_settlement-Returns :
      (tmap : Option (Dict (List Entry))) (pay : PaymentRecord F) (consumed : List Text)
      (found : Option (ProcessorTransaction F))
      → All
          (IsReadable eng.db eng.codec.load_settlement)
          (settle_indexes eng.db tmap pay.transaction_id pay.order_id)
      → Returns (or_settlement eng tmap pay consumed found)
  unfolding or_settlement
  or_settlement-Returns tmap pay consumed (some p) settled = (_, refl)
  or_settlement-Returns tmap pay consumed none settled =
      let es = settle_indexes eng.db tmap pay.transaction_id pay.order_id in
      bind-Returns (load_first eng.db eng.codec.load_settlement (unconsumed consumed es)) _
        (load_first-Returns eng.db eng.codec.load_settlement (unconsumed consumed es)
          (unconsumed-All (IsReadable eng.db eng.codec.load_settlement) consumed es settled))
        (λ s at. (_, refl))

  find_target-Returns :
      (tmap : Option (Dict (List Entry))) (pay : PaymentRecord F) (available : List Entry)
      (consumed : List Text)
      → All (IsReadable eng.db eng.codec.load_processor) available
      → All
          (IsReadable eng.db eng.codec.load_settlement)
          (settle_indexes eng.db tmap pay.transaction_id pay.order_id)
      → Returns (find_target eng tmap pay available consumed)
  unfolding find_target
  find_target-Returns tmap pay available consumed procs settled =
      bind-Returns (load_first eng.db eng.codec.load_processor available) _
        (load_first-Returns eng.db eng.codec.load_processor available procs)
        (λ found at. or_settlement-Returns tmap pay consumed found settled)

  proceed-Returns :
      (now : Moment F) (pay : PaymentRecord F) (findings : List (Finding F)) (entries : List Entry)
      (consumed : List Text) (target : Option (Target F))
      → ((t : Target F) → target ≡ some t → is_plain (fee_policy_id pay t) ≡ true)
      → ((t : Target F)
          → target ≡ some t
          → (p : FeePolicy F) → policy_at pay t ≡ ok (some p)
          → IsPriceable p pay.amount)
      → Returns (proceed eng now pay findings entries consumed target)
  unfolding proceed evaluate_target
  proceed-Returns now pay findings entries consumed none can_look_up can = (_, refl)
  proceed-Returns now pay findings entries consumed (some t) can_look_up can =
      bind-Returns (fee_findings eng pay t) _
        (fee_findings-Returns pay t (can_look_up t refl) (can t refl)) (λ fee at. (_, refl))

  refund_findings-Returns :
      (omap : Option IndexMap) (pay : PaymentRecord F)
      → All
          (IsReadable eng.db eng.codec.load_refund)
          (order_indexes eng.db omap pay.order_id "REFUND")
      → Returns (refund_findings eng omap pay)
  unfolding refund_findings
  refund_findings-Returns omap pay can =
      let es = order_indexes eng.db omap pay.order_id "REFUND" in
      bind-Returns (load_first eng.db eng.codec.load_refund es) _
        (load_first-Returns eng.db eng.codec.load_refund es can)
        (λ found at. option-Returns found _ _ (_, refl) (λ ref. (_, refl)))

  invoice_findings-Returns :
      (omap : Option IndexMap) (pay : PaymentRecord F)
      → All
          (IsReadable eng.db eng.codec.load_invoice)
          (order_indexes eng.db omap pay.order_id "INVOICE")
      → Returns (invoice_findings eng omap pay)
  unfolding invoice_findings
  invoice_findings-Returns omap pay can =
      let es = order_indexes eng.db omap pay.order_id "INVOICE" in
      bind-Returns (load_first eng.db eng.codec.load_invoice es) _
        (load_first-Returns eng.db eng.codec.load_invoice es can)
        (λ found at. option-Returns found _ _ (_, refl) (λ inv. (_, refl)))

  reconcile_unique-Returns :
      (omap : Option IndexMap) (tmap : Option (Dict (List Entry))) (now : Moment F)
      (pay : PaymentRecord F) (entries : List Entry) (consumed : List Text)
      → OrderIsReadable omap tmap pay consumed
      → Returns (reconcile_unique eng omap tmap now pay entries consumed)
  unfolding reconcile_unique
  reconcile_unique-Returns omap tmap now pay entries consumed can =
      let procs = order_indexes eng.db omap pay.order_id "PROCESSOR" in
      let available = unconsumed consumed procs in
      let read =
        unconsumed-All (IsReadable eng.db eng.codec.load_processor) consumed procs can.processors in
      bind-Returns (refund_findings eng omap pay) _ (refund_findings-Returns omap pay can.refunds)
        (λ refunds at.
          bind-Returns (invoice_findings eng omap pay) _
            (invoice_findings-Returns omap pay can.invoices)
            (λ invoices at2.
              bind-Returns (find_target eng tmap pay available consumed) _
                (find_target-Returns tmap pay available consumed read can.settlements)
                (λ target at3.
                  proceed-Returns now pay
                    (refunds ++ (invoices ++ duplicate_processors pay procs available)) entries
                    consumed target (λ t is. can.policy t (at3 ∙ ap ok is))
                    (λ t is. can.fee t (at3 ∙ ap ok is)))))

  -- A call returns where the order's entries name records that can be read, the fee policy id at the
  -- target that is found is none that Python cannot look up, and the fee of the policy that is
  -- chosen there can be computed in Python's decimals.
  pub reconcile_order-Returns :
      (omap : Option IndexMap) (tmap : Option (Dict (List Entry))) (now : Moment F)
      (pay : PaymentRecord F) (consumed : List Text)
      → OrderIsReadable omap tmap pay consumed
      → Returns (reconcile_order eng omap tmap now pay consumed)
  unfolding reconcile_order
  reconcile_order-Returns omap tmap now pay consumed can =
      let entries = order_indexes eng.db omap pay.order_id "PAYMENT" in
      if-Returns (truthy_field pay.metadata (codes "is_duplicate")) _ _ (_, refl)
        (if-Returns (ltb 1 (length entries) && not (str_eq eng.rules.topology "BANK_GL")) _ _
          (_, refl) (reconcile_unique-Returns omap tmap now pay entries consumed can))
