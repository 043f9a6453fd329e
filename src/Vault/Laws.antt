-- ===== src/Vault/Laws.antt =====
-- The map laws of the engine's contract, and of the client's writes.
use vault_recon_ai.Prelude.{List, [], arith, if◌then◌else◌, refl, some, ◌&&◌, ◌∷◌, ◌≡◌}
use vault_recon_ai.Text.{Text, text_eq, text_eq_iff}
use vault_recon_ai.Vault.{Vault, get, insert, lookup, put_}

pub lookup-insert :
    (k j : Text) (v : Text) (m : List (Text × Text))
    → lookup j (insert k v m) ≡ (if text_eq k j then some v else lookup j m)
unfolding lookup insert
lookup-insert k j v [] = refl
lookup-insert k j v ((i, w) ∷ m) =
    ground (arith, text_eq_iff k j, text_eq_iff i k, text_eq_iff i j, lookup-insert k j v m)

-- A write that the engine makes is read back; one that it refuses changes nothing.
pub get-put :
    (k j v : Text) (db : Vault)
    → get (put_ k v db) j ≡ (if db.accepts k && text_eq k j then some v else get db j)
unfolding get put_
get-put k j v db = ground (arith, lookup-insert k j v db.entries)
