-- ===== src/Ingestion/Links.antt =====
-- ingestion/loader.py: what a load leaves in the vault.
use vault_recon_ai.Float.{Float}
use vault_recon_ai.Vault.{Vault}
use vault_recon_ai.Vault.Codec.{Codec}
