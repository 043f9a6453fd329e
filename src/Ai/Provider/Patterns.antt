-- ===== src/Ai/Provider/Patterns.antt =====
-- ai/llm.py: the regular expressions by which the offline provider finds ids in the prompt.
use vault_recon_ai.Prelude.{
  Bool, List, Option, [], drop, if◌then◌else◌, is_empty, length, none, not, or_else, some, suc,
  zero, ℕ, ◌&&◌, ◌++◌, ◌-◌, ◌==◌, ◌||◌, ◌∷◌,
}
use vault_recon_ai.Text.{Text, codes, is_alnum, starts_with}

-- [A-Za-z0-9_\.] and [A-Za-z0-9_\-]
unfoldable pub policy_char : ℕ → Bool
unfolding is_alnum
policy_char c = is_alnum c || (c == b'_' || c == b'.')

unfoldable pub invoice_char : ℕ → Bool
unfolding is_alnum
invoice_char c = is_alnum c || (c == b'_' || c == b'-')

-- The longest run of characters of a class.
unfoldable pub char_run : (ℕ → Bool) → Text → Text
char_run p [] = []
char_run p (c ∷ s) = let rest = char_run p s in if p c then c ∷ rest else []

-- A prefix and one or more characters of a class, at the start of a text.
unfoldable pub tagged : Text → (ℕ → Bool) → Text → Option Text
unfolding starts_with char_run
tagged prefix p s =
    let run = char_run p (drop (length prefix) s) in
    if starts_with s prefix && not (is_empty run) then some (prefix ++ run) else none

-- re.search: the leftmost match.
unfoldable pub search_tagged : Text → (ℕ → Bool) → Text → Option Text
unfolding tagged
search_tagged prefix p [] = none
search_tagged prefix p (c ∷ s) = or_else (tagged prefix p (c ∷ s)) (search_tagged prefix p s)

unfoldable pub policy_id : Text → Option Text
unfolding search_tagged policy_char
policy_id prompt = search_tagged (codes "EVID_POLICY_") policy_char prompt

-- The two alternatives, in order.
unfoldable pub invoice_tag : Text → Option Text
unfolding tagged invoice_char
invoice_tag s =
    or_else (tagged (codes "EVID_INVOICE_") invoice_char s)
      (tagged (codes "EVID_INV_") invoice_char s)

-- re.findall: the matches that do not overlap; `skip` characters belong to the last one.
unfoldable pub find_all : (Text → Option Text) → ℕ → Text → List Text
find_all match_at skip [] = []
find_all match_at (suc skip) (c ∷ s) = find_all match_at skip s
find_all match_at zero (c ∷ s) = elim (match_at (c ∷ s)) [
  | none ↦ find_all match_at 0 s
  | some found ↦ found ∷ find_all match_at (length found - 1) s
]

unfoldable pub invoice_ids : Text → List Text
unfolding find_all invoice_tag
invoice_ids prompt = find_all invoice_tag 0 prompt
