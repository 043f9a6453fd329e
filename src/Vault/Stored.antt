-- ===== src/Vault/Stored.antt =====
-- recon/storage.py: what is read back after `put_record`.
use vault_recon_ai.Prelude.{
  Bool-cases, String, if◌then◌else◌, inl, inr, refl, some, true, ◌&&◌, ◌∙◌, ◌≡◌,
}
use vault_recon_ai.Schemas.{AnyRecord}
use vault_recon_ai.Schemas.Keys.{primary_key, to_key, to_merchant_temporal_key}
use vault_recon_ai.Text.{Text, codes, starts_with, text_eq}
use vault_recon_ai.Vault.{Vault, get, put_}
use vault_recon_ai.Vault.Codec.{Codec}
use vault_recon_ai.Vault.Indexing.{put_-primary, put_indexes-primary, put_record_lem}
use vault_recon_ai.Vault.Laws.{get-put}
use vault_recon_ai.Vault.Records.{put_record}

module _ {F : Type 0} where
  temporal-index :
      (r : AnyRecord F) → starts_with (to_merchant_temporal_key r) (codes "IDX:") ≡ true
  unfolding starts_with to_merchant_temporal_key
  temporal-index r = refl

  -- After `put_record`, a primary key holds the record's text if it is the record's key and the
  -- engine makes that write, and else what it held before; and the answer says whether it was made.
  pub get-put_record :
      (codec : Codec F) (r : AnyRecord F) (db : Vault) (kind : String) (id : Text)
      → (get (put_record codec r db).1 (primary_key kind id) ≡ (
          if db.accepts (to_key r) && text_eq (to_key r) (primary_key kind id)
          then some (codec.dump r)
          else get db (primary_key kind id)))
        × ((put_record codec r db).0 ≡ db.accepts (to_key r))
  get-put_record codec r db kind id =
      let pk = to_key r in
      let db1 = put_ pk (codec.dump r) db in
      elim (Bool-cases (db.accepts pk)) [
        | inl y ↦
            rw (put_record_lem codec r db, y)
              (
                put_indexes-primary r pk (put_ (to_merchant_temporal_key r) pk db1) kind id
                    ∙ put_-primary (to_merchant_temporal_key r) pk db1 kind id (temporal-index r)
                    ∙ rw (get-put pk (primary_key kind id) (codec.dump r) db, y) refl,
                refl,
              )
        | inr n ↦ rw (put_record_lem codec r db, n) (refl, refl)
      ]
