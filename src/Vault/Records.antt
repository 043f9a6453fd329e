-- ===== src/Vault/Records.antt =====
-- recon/storage.py: the methods of `MiniVaultDBClient` on records.
use vault_recon_ai.Prelude.{
  Bool, Option, false, if◌then◌else◌, is_empty, none, some, true, ◌++◌, ◌∷◌,
}
use vault_recon_ai.Result.{Result, of_option, ok, ◌>>=◌}
use vault_recon_ai.Schemas.{
  AnyRecord, adjustment, bank, batch, invoice, payment, processor, refund, settlement,
}
use vault_recon_ai.Schemas.Keys.{
  bank_ref_key, batch_ref_key, invoice_order_key, payment_order_key, processor_batch_key,
  processor_order_key, refund_order_key, refund_txn_key, settlement_batch_key, settlement_txn_key,
  to_key, to_merchant_temporal_key,
}
use vault_recon_ai.Text.{Text, codes, upper}
use vault_recon_ai.Value.{Fields}
use vault_recon_ai.Vault.{Vault, get, put, put_, put_optional}
use vault_recon_ai.Vault.Codec.{Codec}

module _ {F : Type 0} where
  -- The entity indexes that `put_record` writes, by the record's class.
  unfoldable pub put_indexes : AnyRecord F → Text → Vault → Vault
  unfolding put_ put_optional
  put_indexes (payment r) pk db = put_ (payment_order_key r) pk db
  put_indexes (invoice r) pk db = put_ (invoice_order_key r) pk db
  put_indexes (processor r) pk db =
      put_optional (processor_batch_key r) pk (put_ (processor_order_key r) pk db)
  put_indexes (settlement r) pk db =
      put_optional (settlement_batch_key r) pk (put_ (settlement_txn_key r) pk db)
  put_indexes (batch r) pk db = put_ (batch_ref_key r) pk db
  put_indexes (bank r) pk db = put_ (bank_ref_key r) pk db
  put_indexes (refund r) pk db = put_ (refund_txn_key r) pk (put_ (refund_order_key r) pk db)
  put_indexes (adjustment r) pk db = db

  -- `put_record`: the primary entry, the temporal index and the entity indexes.
  unfoldable pub put_record : Codec F → AnyRecord F → Vault → Bool × Vault
  unfolding put put_ put_indexes
  put_record codec r db =
      let key = to_key r in
      let (stored, db') = put key (codec.dump r) db in
      if stored
      then (true, put_indexes r key (put_ (to_merchant_temporal_key r) key db'))
      else (false, db)

  -- `get_record`: None for a missing or empty entry; `json.loads` may raise.
  unfoldable pub get_record : Codec F → Vault → Text → Text → Result (Option (Fields F))
  unfolding get upper
  get_record codec db record_type record_id =
      elim (get db (codes "REC:" ++ (upper record_type ++ (b':' ∷ record_id)))) [
        | none ↦ ok none
        | some val ↦
            if is_empty val
            then ok none
            else do fields ← of_option (codec.loads val); ok (some fields)
      ]
