-- ===== src/Ai/Guardrails/Facts.antt =====
-- ai/guardrails.py: `FactValidator.validate_facts`.
use mathlib.Core.Option
use vault_recon_ai.Prelude.{
  Bool, List, Option, [], any, filter, if◌then◌else◌, is_empty, leb, length, none, not, some, suc,
  zero, ℕ, ◌&&◌, ◌++◌, ◌==◌, ◌||◌, ◌∷◌,
}
use vault_recon_ai.Ai.Evidence.{Evidence, EvidenceSet, evidence_values}
use vault_recon_ai.Dict.{dict_get}
use vault_recon_ai.Float.{Float}
use vault_recon_ai.Prelude.Int.{pos}
use vault_recon_ai.Text.{Text, codes, is_space}
use vault_recon_ai.Value.{Fields, Value}

is_digit_or_comma : ℕ → Bool
is_digit_or_comma c = leb 48 c && leb c 57 || c == b','

is_digit : ℕ → Bool
is_digit c = leb 48 c && leb c 57

-- The longest beginning whose characters pass, and the rest.
span : (ℕ → Bool) → Text → Text × Text
span p [] = ([], [])
span p (c ∷ s) = let (xs, rest) = span p s in if p c then (c ∷ xs, rest) else ([], c ∷ s)

-- `[\d,]+\.?\d*` at the beginning of a text, with what it leaves.
match_number : Text → Option (Text × Text)
unfolding span is_digit_or_comma is_digit
match_number s =
    let (whole, rest) = span is_digit_or_comma s in
    if is_empty whole then none else (elim rest [
      | [] ↦ some (whole, [])
      | c ∷ tail ↦
          let (fraction, behind) = span is_digit tail in
          if c == b'.' then some (whole ++ (b'.' ∷ fraction), behind) else some (whole, c ∷ tail)
    ])

-- re.findall(r"\$\s*([\d,]+\.?\d*)", text); each round takes a character at least.
unfoldable pub find_amounts : ℕ → Text → List Text
unfolding match_number span is_space
find_amounts zero s = []
find_amounts (suc f) [] = []
find_amounts (suc f) (c ∷ s) =
    let later = find_amounts f s in
    let (blank, rest) = span is_space s in
    if c == b'$'
    then elim (match_number rest) [ none ↦ later | some (a, behind) ↦ a ∷ find_amounts f behind ]
    else later

unfoldable pub claimed_texts : Text → List Text
unfolding find_amounts
claimed_texts s = find_amounts (length s) s

-- The fields that hold amounts.
abbrev amount_keys : List Text
amount_keys =
    codes "amount"
    ∷ codes "gross_amount"
    ∷ codes "net_amount"
    ∷ codes "fee_amount"
    ∷ codes "fees"
    ∷ codes "total_net"
    ∷ codes "total_gross"
    ∷ codes "total_fees"
    ∷ codes "Total Amount Due"
    ∷ codes "difference"
    ∷ []

module _ {F : Type 0} ⦃d : Float F⦄ where
  open d use {lit, of_int, sub, abs, le, round, of_text}

  -- float(a.replace(",", "")), where it does not raise.
  unfoldable pub claimed_amounts : List Text → List F
  claimed_amounts [] = []
  claimed_amounts (a ∷ more) =
      let rest = claimed_amounts more in
      elim (of_text (filter (λ c. not (c == b',')) a)) [ none ↦ rest | some x ↦ x ∷ rest ]

  -- float(val), where it does not raise.
  unfoldable pub float_value : Value F → Option F
  float_value Value.null = none
  float_value (Value.bool b) = some (of_int (pos (if b then 1 else 0)))
  float_value (Value.int n) = some (of_int n)
  float_value (Value.float x) = some x
  float_value (Value.str s) = of_text s
  float_value (Value.container s e) = none

  amounts_at : List Text → Fields F → List F
  unfolding dict_get float_value
  amounts_at [] fields = []
  amounts_at (k ∷ ks) fields =
      let rest = amounts_at ks fields in
      elim (Option.bind (dict_get fields k) float_value) [ none ↦ rest | some x ↦ round x 2 ∷ rest ]

  amounts_of : List (Evidence F) → List F
  unfolding amounts_at
  amounts_of [] = []
  amounts_of (ev ∷ evs) = amounts_at amount_keys ev.relevant_fields ++ amounts_of evs

  -- `verified_amounts`, as a list: the code asks only for emptiness and for some element.
  unfoldable pub verified_amounts : EvidenceSet F → List F
  unfolding amounts_of evidence_values
  verified_amounts s = amounts_of (evidence_values s)

  -- abs(x - y) <= 0.05
  unfoldable pub is_close : F → F → Bool
  is_close x y = le (abs (sub x y)) (lit 5 2)

  -- The amount is close to a verified one, or to the distance of two.
  unfoldable pub is_supported : List F → F → Bool
  unfolding is_close
  is_supported verified ca =
      any (is_close ca) verified
      || any (λ va1. any (λ va2. is_close ca (abs (sub va1 va2))) verified) verified

  -- `validate_facts`: the claimed amounts that nothing supports.
  unfoldable pub validate_facts : Text → EvidenceSet F → List F
  unfolding claimed_texts claimed_amounts verified_amounts is_supported
  validate_facts reason s =
      let verified = verified_amounts s in
      filter (λ ca. not (is_empty verified) && not (is_supported verified ca))
        (claimed_amounts (claimed_texts reason))
