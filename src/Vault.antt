-- ===== src/Vault.antt =====
-- recon/storage.py: `MiniVaultDBClient` over the key-value engine of MiniVaultDB/. The engine is
-- seen through its C API (MiniVaultDB/src/db/c_api.cpp): a map that a prefix scan reads in the
-- order of the keys. A write that the engine cannot make answers 0; `accepts` says which it makes.
pub mod Laws
pub mod Records
pub mod Indexing
pub mod Stored
pub mod Found
pub mod Window
pub mod Codec
pub mod Tests
use vault_recon_ai.Prelude.{
  Bool, List, Option, [], false, if◌then◌else◌, ltb, none, some, true, ◌&&◌, ◌==◌, ◌||◌, ◌∷◌,
}
use vault_recon_ai.Text.{Text, starts_with, text_eq}

pub record Vault : Type 0 where
  pub entries : List (Text × Text)
  pub accepts : Text → Bool

-- The engine's order of keys.
text_lt : Text → Text → Bool
text_lt s [] = false
text_lt [] (b ∷ t) = true
text_lt (a ∷ s) (b ∷ t) = ltb a b || a == b && text_lt s t

unfoldable pub insert : Text → Text → List (Text × Text) → List (Text × Text)
unfolding text_lt text_eq
insert k v [] = (k, v) ∷ []
insert k v ((j, w) ∷ m) =
    let rest = insert k v m in
    if text_eq j k then (k, v) ∷ m else if text_lt k j then (k, v) ∷ (j, w) ∷ m else (j, w) ∷ rest

unfoldable pub lookup : Text → List (Text × Text) → Option Text
unfolding text_eq
lookup k [] = none
lookup k ((j, v) ∷ m) = if text_eq j k then some v else lookup k m

-- The entries whose key begins with the prefix, in order.
unfoldable pub with_prefix : Text → List (Text × Text) → List (Text × Text)
unfolding starts_with
with_prefix p [] = []
with_prefix p ((k, v) ∷ m) =
    let rest = with_prefix p m in if starts_with k p then (k, v) ∷ rest else rest

-- `put`, with the time to live that the program leaves at 0: no entry expires.
unfoldable pub put : Text → Text → Vault → Bool × Vault
unfolding insert
put key value db =
    if db.accepts key
    then (true, record db { entries = insert key value db.entries })
    else (false, db)

unfoldable pub without : Text → List (Text × Text) → List (Text × Text)
unfolding text_eq
without k [] = []
without k ((j, v) ∷ m) = let rest = without k m in if text_eq j k then rest else (j, v) ∷ rest

-- `delete`: the engine answers 1 also where the key is not there, and 0 where it throws.
unfoldable pub delete : Text → Vault → Bool × Vault
unfolding without
delete key db =
    if db.accepts key then (true, record db { entries = without key db.entries }) else (false, db)

unfoldable pub get : Vault → Text → Option Text
unfolding lookup
get db key = lookup key db.entries

unfoldable pub scan_prefix : Vault → Text → List (Text × Text)
unfolding with_prefix
scan_prefix db prefix = with_prefix prefix db.entries

-- A write whose answer is dropped.
unfoldable pub put_ : Text → Text → Vault → Vault
unfolding put
put_ key value db = (put key value db).1

unfoldable pub put_optional : Option Text → Text → Vault → Vault
unfolding put_
put_optional none value db = db
put_optional (some key) value db = put_ key value db
