-- ===== src/Vault/Found.antt =====
-- recon/storage.py and recon/matcher.py: the order index of a stored payment.
use mathlib.Core.Option.{some-injective}
use vault_recon_ai.Prelude.{
  Bool, Bool-cases, In, List, [], ap, arith, false, if◌then◌else◌, inl, inr, refl, some, true, ◌++◌,
  ◌∙◌, ◌∷◌, ◌≡◌,
}
use vault_recon_ai.Schemas.{AnyRecord, PaymentRecord}
use vault_recon_ai.Schemas.Keys.{index_prefix, payment_order_key, to_key, to_merchant_temporal_key}
use vault_recon_ai.Text.{Text, starts_with, text_eq, text_eq_iff}
use vault_recon_ai.Vault.{Vault, get, lookup, put, put_, scan_prefix, with_prefix}
use vault_recon_ai.Vault.Codec.{Codec}
use vault_recon_ai.Vault.Indexing.{put_record_lem}
use vault_recon_ai.Vault.Laws.{get-put}
use vault_recon_ai.Vault.Records.{put_indexes, put_record}

lookup-In : (k v : Text) (m : List (Text × Text)) → lookup k m ≡ some v → In (k, v) m
unfolding lookup
lookup-In k v [] h = absurd (cc)
lookup-In k v ((j, w) ∷ m) h = elim (Bool-cases (text_eq j k)) [
  | inl y ↦
      let same_key : j ≡ k = ground (arith, text_eq_iff j k) in
      let same_text : w ≡ v = some-injective _ _ (rw y at h) in
      In.here (rw (same_key, same_text) refl)
  | inr n ↦ In.there (lookup-In k v m (rw n at h))
]

if-In :
    {a : Text × Text} (x : Text × Text) (xs : List (Text × Text)) (b : Bool)
    → In a xs
    → In a (if b then x ∷ xs else xs)
if-In x xs true i = In.there i
if-In x xs false i = i

with_prefix-In :
    (p k v : Text) (m : List (Text × Text))
    → starts_with k p ≡ true
    → In (k, v) m
    → In (k, v) (with_prefix p m)
unfolding with_prefix
with_prefix-In p k v [] h i = elim i [ ]
with_prefix-In p k v ((j, w) ∷ m) h (In.here e) =
    let kept : starts_with j p ≡ true = rw (ap (λ (x : Text × Text). x.0) e) h in
    rw kept (In.here e)
with_prefix-In p k v ((j, w) ∷ m) h (In.there i) =
    if-In (j, w) (with_prefix p m) (starts_with j p) (with_prefix-In p k v m h i)

starts_with-append : (p s : Text) → starts_with (p ++ s) p ≡ true
unfolding starts_with
starts_with-append [] s = refl
starts_with-append (c ∷ p) s = ground (arith, starts_with-append p s)

put_-accepts : (k v : Text) (db : Vault) → (put_ k v db).accepts ≡ db.accepts
unfolding put_ put
put_-accepts k v db = ground arith

-- A write that the engine makes is among the entries that a scan for the key's prefix gives.
put_-In :
    (k v p : Text) (db : Vault)
    → db.accepts k ≡ true
    → starts_with k p ≡ true
    → In (k, v) (scan_prefix (put_ k v db) p)
unfolding scan_prefix get
put_-In k v p db y h =
    let there_now : get (put_ k v db) k ≡ some v =
      ground (arith, get-put k k v db, text_eq_iff k k) in
    with_prefix-In p k v (put_ k v db).entries h (lookup-In k v (put_ k v db).entries there_now)

module _ {F : Type 0} where
  -- After `put_record` of a payment of which the engine makes the primary write and the write of
  -- the order index, a scan for the order's payments gives the index entry, which names the key
  -- of the payment.
  pub put_record-In :
      (codec : Codec F) (r : PaymentRecord F) (db : Vault)
      → db.accepts (to_key (AnyRecord.payment r)) ≡ true
      → db.accepts (payment_order_key r) ≡ true
      → In
          (payment_order_key r, to_key (AnyRecord.payment r))
          (scan_prefix
            (put_record codec (AnyRecord.payment r) db).1
            (index_prefix "ORDER" r.order_id "PAYMENT"))
  unfolding put_indexes
  put_record-In codec r db y z =
      let pk = to_key (AnyRecord.payment r) in
      let stored = put_ pk (codec.dump (AnyRecord.payment r)) db in
      let temporal = to_merchant_temporal_key (AnyRecord.payment r) in
      let dated = put_ temporal pk stored in
      let same_engine : dated.accepts ≡ db.accepts =
        put_-accepts temporal pk stored ∙ put_-accepts pk (codec.dump (AnyRecord.payment r)) db in
      let can : dated.accepts (payment_order_key r) ≡ true = rw same_engine z in
      rw (put_record_lem codec (AnyRecord.payment r) db, y)
        (put_-In (payment_order_key r) pk (index_prefix "ORDER" r.order_id "PAYMENT") dated can (
          unfold payment_order_key in
          starts_with-append (index_prefix "ORDER" r.order_id "PAYMENT") r.transaction_id))
