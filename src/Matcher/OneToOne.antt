-- ===== src/Matcher/OneToOne.antt =====
-- recon/matcher.py: the target that a call consumes, against those consumed before.
use mathlib.Core.Option
use mathlib.Core.Option.{some-injective}
use vault_recon_ai.Prelude.{
  Bool-cases, List, Option, [], arith, false, inl, inr, none, some, ◌∷◌, ◌≡◌,
}
use vault_recon_ai.Dict.{Dict}
use vault_recon_ai.Exceptions.{FinancialException, Moment}
use vault_recon_ai.Float.{Float}
use vault_recon_ai.Matcher.{Engine, ReconciliationMatch, load_at}
use vault_recon_ai.Matcher.Index.{Entry, IndexMap, settle_indexes, unconsumed}
use vault_recon_ai.Matcher.Order.{reconcile_order}
use vault_recon_ai.Matcher.Order.Targets.{
  Target, find_target, load_first, or_settlement, proc_txn, settle_record, target_id,
}
use vault_recon_ai.Matcher.Sound.{reconcile_order-IsSound}
use vault_recon_ai.Result.{>>=-eq-ok, ok, ok-injective}
use vault_recon_ai.Schemas.{PaymentRecord, ProcessorTransaction, SettlementRecord}
use vault_recon_ai.Text.{Text, contains, last_part}
use vault_recon_ai.Vault.{Vault, get}

-- Records are stored under keys that end in their ids, as `put_record` stores them when the ids
-- hold no colon.

pub record IsKeyed {F : Type 0} (eng : Engine F) : Type 0 where
  pub processors :
      (k raw : Text) (p : ProcessorTransaction F)
      → get eng.db k ≡ some raw
      → eng.codec.load_processor raw ≡ some p
      → last_part k ≡ p.processor_transaction_id
  pub settlements :
      (k raw : Text) (s : SettlementRecord F)
      → get eng.db k ≡ some raw
      → eng.codec.load_settlement raw ≡ some s
      → last_part k ≡ s.settlement_id

load_at-some :
    {A : Type 0} (db : Vault) (load : Text → Option A) (k : Text) {a : A}
    → load_at db load k ≡ ok (some a)
    → (raw : Text) × (get db k ≡ some raw) × (load raw ≡ some a)
unfolding load_at
load_at-some db load k h = ground arith

-- What is loaded from the unconsumed entries is not consumed.
load_first-unconsumed :
    {A : Type 0} (db : Vault) (load : Text → Option A) (consumed : List Text) (es : List Entry)
    {a : A}
    → load_first db load (unconsumed consumed es) ≡ ok (some a)
    → (k raw : Text) × (get db k ≡ some raw)
      × (load raw ≡ some a)
      × (contains consumed (last_part k) ≡ false)
unfolding load_first unconsumed
load_first-unconsumed db load consumed [] h = cc
load_first-unconsumed db load consumed (e ∷ es) h =
    elim (Bool-cases (contains consumed (last_part e.1))) [
      | inl used ↦ load_first-unconsumed db load consumed es (rw used at h)
      | inr free ↦
          let (raw, found, parsed) = load_at-some db load e.1 (rw free at h) in
          (e.1, raw, found, parsed, free)
    ]

module _ {F : Type 0} ⦃d : Float F⦄ (eng : Engine F) (keyed : IsKeyed eng) where
  settled_unconsumed :
      (tmap : Option (Dict (List Entry))) (pay : PaymentRecord F) (consumed : List Text)
      {t : Target F}
      → or_settlement eng tmap pay consumed none ≡ ok (some t)
      → contains consumed (target_id t) ≡ false
  unfolding or_settlement
  settled_unconsumed tmap pay consumed {t} h =
      let es = settle_indexes eng.db tmap pay.transaction_id pay.order_id in
      let (found, e, rest) =
        >>=-eq-ok (load_first eng.db eng.codec.load_settlement (unconsumed consumed es)) _ h in
      go es found e (ok-injective rest)
    where
      go :
          (es : List Entry) (found : Option (SettlementRecord F))
          → load_first eng.db eng.codec.load_settlement (unconsumed consumed es) ≡ ok found
          → Option.map settle_record found ≡ some t
          → contains consumed (target_id t) ≡ false
      go es none e same = cc
      go es (some s) e same =
          let (k, raw, at, parsed, free) =
            load_first-unconsumed eng.db eng.codec.load_settlement consumed es e in
          let id : settle_record s ≡ t = some-injective _ _ same in
          rw (← id) (rw (keyed.settlements k raw s at parsed) at free)

  -- The target that is chosen is not consumed.
  found_unconsumed :
      (tmap : Option (Dict (List Entry))) (pay : PaymentRecord F) (es : List Entry)
      (consumed : List Text) (found : Option (ProcessorTransaction F)) {t : Target F}
      → load_first eng.db eng.codec.load_processor (unconsumed consumed es) ≡ ok found
      → or_settlement eng tmap pay consumed found ≡ ok (some t)
      → contains consumed (target_id t) ≡ false
  found_unconsumed tmap pay es consumed none e h = settled_unconsumed tmap pay consumed h
  found_unconsumed tmap pay es consumed (some p) {t} e h =
      let (k, raw, at, parsed, free) =
        load_first-unconsumed eng.db eng.codec.load_processor consumed es e in
      let id : proc_txn p ≡ t = some-injective _ _ (ok-injective (unfold or_settlement in h)) in
      rw (← id) (rw (keyed.processors k raw p at parsed) at free)

  pub find_target-unconsumed :
      (tmap : Option (Dict (List Entry))) (pay : PaymentRecord F) (es : List Entry)
      (consumed : List Text) {t : Target F}
      → find_target eng tmap pay (unconsumed consumed es) consumed ≡ ok (some t)
      → contains consumed (target_id t) ≡ false
  unfolding find_target
  find_target-unconsumed tmap pay es consumed h =
      let (found, e, rest) =
        >>=-eq-ok (load_first eng.db eng.codec.load_processor (unconsumed consumed es)) _ h in
      found_unconsumed tmap pay es consumed found e rest

  -- Where records are stored under keys that end in their ids, the id that a match consumes was not
  -- consumed before.
  pub reconcile_order-unconsumed :
      (omap : Option IndexMap) (tmap : Option (Dict (List Entry))) (now : Moment F)
      (pay : PaymentRecord F) (consumed : List Text) {m : ReconciliationMatch F}
      {x : Option (FinancialException F)} {c : List Text}
      → reconcile_order eng omap tmap now pay consumed ≡ ok ((some m, x), c)
      → (id : Text) × (m.processor_transaction_id ≡ some id)
        × (c ≡ id ∷ consumed)
        × (contains consumed id ≡ false)
  reconcile_order-unconsumed omap tmap now pay consumed h =
      let (t, found, sound) = reconcile_order-IsSound eng omap tmap now pay consumed h in
      (
        target_id t,
        sound.target_matched,
        sound.now_consumed,
        find_target-unconsumed tmap pay _ consumed found,
      )
