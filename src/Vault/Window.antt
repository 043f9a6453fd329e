-- ===== src/Vault/Window.antt =====
-- recon/storage.py: `scan_merchant_window`. Digits are those of ASCII.
pub mod Answers
use mathlib.Core.Option
use vault_recon_ai.Prelude.{
  Bool, List, Option, [], false, if◌then◌else◌, is_empty, leb, map, none, some, true, ℕ, ◌&&◌, ◌*◌,
  ◌++◌, ◌+◌, ◌-◌, ◌==◌, ◌∷◌,
}
use vault_recon_ai.Prelude.Int.{leb_ℤ, pos, ℤ, ◌-ℤ◌}
use vault_recon_ai.Result.{Result, of_option, ok, ◌>>=◌}
use vault_recon_ai.Schemas.Keys.{primary_key}
use vault_recon_ai.Text.{Text, codes, split, strip, text_eq, upper}
use vault_recon_ai.Value.{Fields}
use vault_recon_ai.Vault.{Vault, get, scan_prefix}
use vault_recon_ai.Vault.Codec.{Codec}

-- The value of digits, with single underscores between them.
digits_value : ℕ → Bool → Text → Option ℕ
digits_value acc ended [] = if ended then some acc else none
digits_value acc ended (c ∷ s) =
    let digit = digits_value (10 * acc + (c - 48)) true s in
    let gap = digits_value acc false s in
    if leb 48 c && leb c 57 then digit else if c == b'_' && ended then gap else none

-- int(text): blanks around it and a sign are allowed; `none` is ValueError.
unfoldable pub int_of_text : Text → Option ℤ
unfolding digits_value strip
int_of_text text = elim (strip text) [
  | [] ↦ none
  | c ∷ s ↦
      if c == b'-'
      then Option.map (λ n. pos 0 -ℤ pos n) (digits_value 0 false s)
      else if c == b'+'
      then Option.map (λ n. pos n) (digits_value 0 false s)
      else Option.map (λ n. pos n) (digits_value 0 false (c ∷ s))
]

-- What the loop reads in a key of six parts or more: its time stamp and its record type.
unfoldable pub stamped : Text → Result (Option (ℤ × Text))
unfolding split int_of_text
stamped idx_key = elim (split b':' idx_key) [
  | a ∷ b ∷ c ∷ stamp ∷ rec_type ∷ f ∷ rest ↦ do
    ts ← of_option (int_of_text stamp)
    ok (some (ts, rec_type))
  | other ↦ ok none
]

-- start_ts <= ts <= end_ts, and record_type is None or the entry's.
unfoldable pub in_window : ℤ → ℤ → Option Text → ℤ × Text → Bool
unfolding text_eq upper
in_window start_ts end_ts record_type (ts, rec_type) =
    leb_ℤ start_ts ts
    && leb_ℤ ts end_ts
    && elim record_type [ none ↦ true | some t ↦ text_eq rec_type (upper t) ]

module _ {F : Type 0} (codec : Codec F) (db : Vault) where
  -- The record of a text, if there is one that is not empty.
  unfoldable pub text_record : Option Text → Result (Option (Fields F))
  text_record none = ok none
  text_record (some raw) =
      if is_empty raw then ok none else do r ← of_option (codec.loads raw); ok (some r)

  unfoldable pub primary_record : Text → Result (Option (Fields F))
  unfolding text_record
  primary_record primary_key = text_record (get db primary_key)

  unfoldable pub window_entry :
      ℤ → ℤ → Option Text → Option (ℤ × Text) → Text → Result (Option (Fields F))
  unfolding in_window primary_record
  window_entry start_ts end_ts record_type none primary_key = ok none
  window_entry start_ts end_ts record_type (some found) primary_key =
      if in_window start_ts end_ts record_type found then primary_record primary_key else ok none

  -- The loop over the index entries.
  unfoldable pub window_loop : ℤ → ℤ → Option Text → List (Text × Text) → Result (List (Fields F))
  unfolding stamped window_entry
  window_loop start_ts end_ts record_type [] = ok []
  window_loop start_ts end_ts record_type (e ∷ es) = do
    found ← stamped e.0
    r ← window_entry start_ts end_ts record_type found e.1
    rest ← window_loop start_ts end_ts record_type es
    ok (elim r [ none ↦ rest | some x ↦ x ∷ rest ])

  -- `scan_merchant_window`
  unfoldable pub scan_merchant_window : Text → ℤ → ℤ → Option Text → Result (List (Fields F))
  unfolding window_loop scan_prefix
  scan_merchant_window merchant_id start_ts end_ts record_type =
      window_loop start_ts end_ts record_type
        (scan_prefix db (codes "IDX:MERCHANT:" ++ (merchant_id ++ b':' ∷ [])))
