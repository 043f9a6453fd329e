-- ===== src/Vault/Indexing.antt =====
-- recon/storage.py: what `put_record` leaves in the vault.
-- Every index entry names a key that is there.
use vault_recon_ai.Prelude.{
  Bool-cases, Option, String, [], ap, arith, false, if◌then◌else◌, inl, inr, is_some, none, refl,
  some, sym, true, ◌∙◌, ◌∷◌, ◌≡◌,
}
use vault_recon_ai.Schemas.{AnyRecord}
use vault_recon_ai.Schemas.Keys.{
  bank_ref_key, batch_key, batch_ref_key, index_key, invoice_order_key, payment_order_key,
  primary_key, processor_batch_key, processor_order_key, refund_order_key, refund_txn_key,
  settlement_batch_key, settlement_txn_key, to_key, to_merchant_temporal_key,
}
use vault_recon_ai.Text.{Text, codes, starts_with, text_eq, text_eq_iff}
use vault_recon_ai.Vault.{Vault, get, insert, put_, put_optional}
use vault_recon_ai.Vault.Codec.{Codec}
use vault_recon_ai.Vault.Laws.{get-put}
use vault_recon_ai.Vault.Records.{put_indexes, put_record}

abbrev pub IsLinked : Vault → Type 0
IsLinked db =
    (k v : Text)
    → starts_with k (codes "IDX:") ≡ true
    → get db k ≡ some v
    → is_some (get db v) ≡ true

-- An index entry that points to a key which is there keeps the vault linked.
put_-IsLinked :
    (k pk : Text) (db : Vault) → is_some (get db pk) ≡ true → IsLinked db → IsLinked (put_ k pk db)
put_-IsLinked k pk db stored linked j v idx at = ground (
  arith,
  get-put k j pk db,
  get-put k v pk db,
  text_eq_iff k v,
  text_eq_iff k pk,
  text_eq_iff k j,
  linked j v idx,
  get-put k pk pk db,
)

-- A write leaves what is there in place.
put_-stored :
    (k v j : Text) (db : Vault) → is_some (get db j) ≡ true → is_some (get (put_ k v db) j) ≡ true
put_-stored k v j db stored = ground (arith, get-put k j v db)

-- A primary entry is no index.
index_ne_primary :
    (k : Text) (kind : String) (id : Text)
    → starts_with k (codes "IDX:") ≡ true
    → text_eq (primary_key kind id) k ≡ false
unfolding text_eq starts_with
index_ne_primary [] kind id h = ground arith
index_ne_primary (c ∷ k) kind id h = ground arith

-- The key `pk` is there, and the vault is linked.
abbrev Links : Text → Vault → Type 0
Links pk db = (is_some (get db pk) ≡ true) × IsLinked db

put_-Links : (k pk : Text) (db : Vault) → Links pk db → Links pk (put_ k pk db)
put_-Links k pk db (stored, linked) =
    (put_-stored k pk pk db stored, put_-IsLinked k pk db stored linked)

put_optional-Links :
    (k : Option Text) (pk : Text) (db : Vault) → Links pk db → Links pk (put_optional k pk db)
unfolding put_optional
put_optional-Links none pk db l = l
put_optional-Links (some k) pk db l = put_-Links k pk db l

-- A write under a primary key keeps the vault linked.
primary-IsLinked :
    (kind : String) (id v : Text) (db : Vault)
    → IsLinked db
    → IsLinked (put_ (primary_key kind id) v db)
primary-IsLinked kind id v db linked j w idx at = put_-stored (primary_key kind id) v w db (
    linked j w idx
      (ground (arith, get-put (primary_key kind id) j v db, index_ne_primary j kind id idx)))

-- An index write is not seen at a primary key.
pub put_-primary :
    (k v : Text) (db : Vault) (kind : String) (id : Text)
    → starts_with k (codes "IDX:") ≡ true
    → get (put_ k v db) (primary_key kind id) ≡ get db (primary_key kind id)
put_-primary k v db kind id idx = ground (
  arith,
  get-put k (primary_key kind id) v db,
  index_ne_primary k kind id idx,
  text_eq_iff k (primary_key kind id),
  text_eq_iff (primary_key kind id) k,
)

put_optional-primary :
    (b : Option Text) (what : String) (by pk : Text) (db : Vault) (kind : String) (id : Text)
    → get (put_optional (batch_key b what by) pk db) (primary_key kind id)
      ≡ get db (primary_key kind id)
unfolding put_optional batch_key
put_optional-primary none what by pk db kind id = refl
put_optional-primary (some []) what by pk db kind id = refl
put_optional-primary (some (c ∷ b)) what by pk db kind id =
    put_-primary (index_key "BATCH" (c ∷ b) what by) pk db kind id (unfold starts_with in refl)

-- A write that the engine makes.
put_-accepted :
    (k v : Text) (db : Vault)
    → db.accepts k ≡ true
    → put_ k v db ≡ record db { entries = insert k v db.entries }
unfolding put_
put_-accepted k v db y = rw (y, put_)

module _ {F : Type 0} where
  put_indexes-Links :
      (r : AnyRecord F) (pk : Text) (db : Vault) → Links pk db → Links pk (put_indexes r pk db)
  unfolding put_indexes
  put_indexes-Links (AnyRecord.payment r) pk db l = put_-Links (payment_order_key r) pk db l
  put_indexes-Links (AnyRecord.invoice r) pk db l = put_-Links (invoice_order_key r) pk db l
  put_indexes-Links (AnyRecord.processor r) pk db l =
      put_optional-Links (processor_batch_key r) pk _ (put_-Links (processor_order_key r) pk db l)
  put_indexes-Links (AnyRecord.settlement r) pk db l =
      put_optional-Links (settlement_batch_key r) pk _ (put_-Links (settlement_txn_key r) pk db l)
  put_indexes-Links (AnyRecord.batch r) pk db l = put_-Links (batch_ref_key r) pk db l
  put_indexes-Links (AnyRecord.bank r) pk db l = put_-Links (bank_ref_key r) pk db l
  put_indexes-Links (AnyRecord.refund r) pk db l =
      put_-Links (refund_txn_key r) pk _ (put_-Links (refund_order_key r) pk db l)
  put_indexes-Links (AnyRecord.adjustment r) pk db l = l

  to_key-IsLinked :
      (r : AnyRecord F) (v : Text) (db : Vault) → IsLinked db → IsLinked (put_ (to_key r) v db)
  unfolding to_key
  to_key-IsLinked (AnyRecord.payment r) v db = primary-IsLinked "PAYMENT" r.transaction_id v db
  to_key-IsLinked (AnyRecord.invoice r) v db = primary-IsLinked "INVOICE" r.invoice_id v db
  to_key-IsLinked (AnyRecord.processor r) v db =
      primary-IsLinked "PROCESSOR" r.processor_transaction_id v db
  to_key-IsLinked (AnyRecord.settlement r) v db = primary-IsLinked "SETTLEMENT" r.settlement_id v db
  to_key-IsLinked (AnyRecord.batch r) v db = primary-IsLinked "BATCH" r.batch_id v db
  to_key-IsLinked (AnyRecord.bank r) v db = primary-IsLinked "BANK" r.bank_transaction_id v db
  to_key-IsLinked (AnyRecord.refund r) v db = primary-IsLinked "REFUND" r.refund_id v db
  to_key-IsLinked (AnyRecord.adjustment r) v db = primary-IsLinked "ADJUSTMENT" r.adjustment_id v db

  -- The vault behind `put_record`, as a chain of writes.
  abbrev pub written : Codec F → AnyRecord F → Vault → Vault
  written codec r db =
      put_indexes r (to_key r)
        (put_ (to_merchant_temporal_key r) (to_key r) (put_ (to_key r) (codec.dump r) db))

  pub put_record_lem :
      (codec : Codec F) (r : AnyRecord F) (db : Vault)
      → put_record codec r db
        ≡ (if db.accepts (to_key r) then (true, written codec r db) else (false, db))
  unfolding put_record
  put_record_lem codec r db = elim (Bool-cases (db.accepts (to_key r))) [
    | inl y ↦ rw y (
        ap
          (λ (x : Vault).
            (true, put_indexes r (to_key r) (put_ (to_merchant_temporal_key r) (to_key r) x)))
          (sym (put_-accepted (to_key r) (codec.dump r) db y)))
    | inr n ↦ rw n
  ]

  written-IsLinked :
      (codec : Codec F) (r : AnyRecord F) (db : Vault)
      → db.accepts (to_key r) ≡ true
      → IsLinked db
      → IsLinked (written codec r db)
  written-IsLinked codec r db y linked =
      let pk = to_key r in
      let v = codec.dump r in
      let db1 = put_ pk v db in
      let stored : is_some (get db1 pk) ≡ true =
        ground (arith, get-put pk pk v db, text_eq_iff pk pk) in
      (put_indexes-Links r pk (put_ (to_merchant_temporal_key r) pk db1)
        (put_-Links (to_merchant_temporal_key r) pk db1 (stored, to_key-IsLinked r v db linked))).1

  -- After `put_record` of any record, whichever writes the engine makes, every index entry still
  -- names a key that is there.
  pub put_record-IsLinked :
      (codec : Codec F) (r : AnyRecord F) (db : Vault)
      → IsLinked db
      → IsLinked (put_record codec r db).1
  put_record-IsLinked codec r db linked = elim (Bool-cases (db.accepts (to_key r))) [
    | inl y ↦ rw (put_record_lem codec r db, y) (written-IsLinked codec r db y linked)
    | inr n ↦ rw (put_record_lem codec r db, n) linked
  ]

  pub put_indexes-primary :
      (r : AnyRecord F) (pk : Text) (db : Vault) (kind : String) (id : Text)
      → get (put_indexes r pk db) (primary_key kind id) ≡ get db (primary_key kind id)
  unfolding put_indexes starts_with payment_order_key invoice_order_key processor_order_key
      settlement_txn_key batch_ref_key bank_ref_key refund_order_key refund_txn_key
      processor_batch_key settlement_batch_key
  put_indexes-primary (AnyRecord.payment r) pk db kind id =
      put_-primary (payment_order_key r) pk db kind id refl
  put_indexes-primary (AnyRecord.invoice r) pk db kind id =
      put_-primary (invoice_order_key r) pk db kind id refl
  put_indexes-primary (AnyRecord.processor r) pk db kind id =
      put_optional-primary r.settlement_batch_id "PROCESSOR" r.processor_transaction_id pk
        (put_ (processor_order_key r) pk db) kind id
      ∙ put_-primary (processor_order_key r) pk db kind id refl
  put_indexes-primary (AnyRecord.settlement r) pk db kind id =
      put_optional-primary r.settlement_batch_id "SETTLEMENT" r.settlement_id pk
        (put_ (settlement_txn_key r) pk db) kind id
      ∙ put_-primary (settlement_txn_key r) pk db kind id refl
  put_indexes-primary (AnyRecord.batch r) pk db kind id =
      put_-primary (batch_ref_key r) pk db kind id refl
  put_indexes-primary (AnyRecord.bank r) pk db kind id =
      put_-primary (bank_ref_key r) pk db kind id refl
  put_indexes-primary (AnyRecord.refund r) pk db kind id =
      put_-primary (refund_txn_key r) pk (put_ (refund_order_key r) pk db) kind id refl
      ∙ put_-primary (refund_order_key r) pk db kind id refl
  put_indexes-primary (AnyRecord.adjustment r) pk db kind id = refl
