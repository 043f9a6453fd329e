-- ===== src/Result.antt =====
-- The result of code that may raise: `raised` stands for any Python exception that is not caught.
use vault_recon_ai.Prelude.{Option, none, refl, some, ◌≡◌}

pub data Result {ℓ} (A : Type ℓ) : Type ℓ where
  ok : A → Result A
  raised : Result A

-- The code behind a call: it runs where the call returns, on what it returns.
infixl 5 ◌>>=◌
abbrev pub ◌>>=◌ {ℓ κ} : {X : Type ℓ} {Y : Type κ} → Result X → (X → Result Y) → Result Y
raised >>= next = raised
ok x >>= next = next x

-- A parser's answer: `none` is the exception that it raises.
abbrev pub of_option {ℓ} : {A : Type ℓ} → Option A → Result A
of_option none = raised
of_option (some a) = ok a

-- Where a chain returned, its first call did, and so did the rest of it.
pub >>=-eq-ok {ℓ κ} :
    {X : Type ℓ} {Y : Type κ} (call : Result X) (next : X → Result Y) {y : Y}
    → (call >>= next) ≡ ok y
    → (x : X) × (call ≡ ok x) × (next x ≡ ok y)
>>=-eq-ok raised next returned = cc
>>=-eq-ok (ok x) next returned = (x, refl, returned)

pub ok-injective {ℓ} : {A : Type ℓ} {a b : A} → ok a ≡ ok b → a ≡ b
ok-injective h = cc

pub of_option-ok : {A : Type 0} (o : Option A) {a : A} → of_option o ≡ ok a → o ≡ some a
of_option-ok none h = cc
of_option-ok (some b) h = rw (ok-injective h) refl

pub none_ne_some : {A : Type 0} {a : A} → none ≡ some a → ⊥
none_ne_some h = cc
