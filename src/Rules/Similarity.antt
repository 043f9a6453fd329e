-- ===== src/Rules/Similarity.antt =====
-- recon/rules.py: the description similarity. `difflib.SequenceMatcher(None, a, b).ratio()` is the
-- parameter `ratio`.
use vault_recon_ai.Prelude.{
  Bool, List, Option, [], false, filter, if◌then◌else◌, is_empty, leb, length, ltb, map, none, not,
  some, true, ℕ, ◌&&◌, ◌+◌, ◌==◌, ◌||◌, ◌∷◌,
}
use vault_recon_ai.Float.{Float}
use vault_recon_ai.Prelude.Int.{pos}
use vault_recon_ai.Text.{Text, codes, contains, join, split, upper}
use vault_recon_ai.Value.{Value, show_value, truthy}

-- `[^A-Z0-9 ]` becomes a space, in the upper-cased text.
unfoldable pub keep_or_space : ℕ → ℕ
keep_or_space c = if leb 48 c && leb c 57 || leb 65 c && leb c 90 then c else 32

all_digits : Text → Bool
all_digits [] = true
all_digits (c ∷ s) = (leb 48 c && leb c 57) && all_digits s

-- `\d+` on a whole word.
is_number : Text → Bool
unfolding all_digits
is_number s = not (is_empty s) && all_digits s

-- What the word leaves behind the prefix, if it has it.
after : Text → Text → Option Text
after [] s = some s
after (a ∷ p) [] = none
after (a ∷ p) (b ∷ s) = if a == b then after p s else none

number_after : Text → Text → Bool
unfolding after is_number
number_after p s = elim (after p s) [ none ↦ false | some rest ↦ is_number rest ]

-- `\b(REF|CHQ|INV|ORD|PAY)?\d+\b`: between spaces it can match whole words only.
is_reference : Text → Bool
unfolding number_after is_number
is_reference w =
    is_number w
    || number_after (codes "REF") w
    || number_after (codes "CHQ") w
    || number_after (codes "INV") w
    || number_after (codes "ORD") w
    || number_after (codes "PAY") w

abbrev stopwords : List Text
stopwords =
    codes "EFT"
    ∷ codes "PAD"
    ∷ codes "POS"
    ∷ codes "DEP"
    ∷ codes "CHQ"
    ∷ codes "ADP"
    ∷ codes "PPD"
    ∷ codes "INC"
    ∷ codes "LTD"
    ∷ codes "SVC"
    ∷ codes "PMT"
    ∷ codes "PAYMENT"
    ∷ codes "INVOICE"
    ∷ codes "THE"
    ∷ codes "OF"
    ∷ codes "AND"
    ∷ codes "CDA"
    ∷ codes "CANADA"
    ∷ codes "REF"
    ∷ codes "CORP"
    ∷ codes "LLC"
    ∷ codes "BANK"
    ∷ []

-- s.split() of a text whose only space is " ".
unfoldable pub words : Text → List Text
unfolding split
words s = filter (λ w. not (is_empty w)) (split 32 s)

-- The tokens that `normalize_description` joins by spaces.
unfoldable pub description_tokens : Text → List Text
unfolding words keep_or_space is_reference contains upper
description_tokens desc =
    filter (λ w. not (is_reference w) && not (contains stopwords w) && ltb 2 (length w))
      (words (map keep_or_space (upper desc)))

-- The elements of a set, each once.
unfoldable pub distinct : List Text → List Text
unfolding contains
distinct [] = []
distinct (x ∷ xs) = let rest = distinct xs in if contains rest x then rest else x ∷ rest

module _ {F : Type 0} ⦃d : Float F⦄ where
  open d use {lt}

  -- max(x, y) of Python: the second where it is greater.
  unfoldable pub greater : F → F → F
  greater x y = if lt x y then y else x

module _ {F : Type 0} ⦃d : Float F⦄ (ratio : Text → Text → F) where
  open d use {lit, of_int, div}

  jaccard : List Text → List Text → F
  unfolding distinct contains
  jaccard xs ys =
      let ta = distinct xs in
      let tb = distinct ys in
      let both = length (filter (contains tb) ta) in
      let either = length ta + length (filter (λ y. not (contains ta y)) tb) in
      if either == 0 then lit 0 0 else div (of_int (pos both)) (of_int (pos either))

  -- `normalize_description` of any value, as its tokens.
  value_tokens : Value F → List Text
  unfolding truthy show_value description_tokens
  value_tokens v = if truthy v then description_tokens (show_value v) else []

  unfoldable pub calculate_description_similarity : Value F → Value F → F
  unfolding greater jaccard value_tokens join
  calculate_description_similarity a b =
      let na = value_tokens a in
      let nb = value_tokens b in
      if is_empty na || is_empty nb
      then lit 0 0
      else greater (ratio (join 32 na) (join 32 nb)) (jaccard na nb)
