-- ===== src/Vault/Window/Answers.antt =====
-- recon/storage.py: the answers of `scan_merchant_window`.

use mathlib.Core.Path.{subst}
use mathlib.Core.Option.{some-injective}
use vault_recon_ai.Prelude.{
  Bool-cases, In, List, Option, [], ap, false, inl, inr, is_empty, none, refl, some, sym, true,
  ◌++◌, ◌↔◌, ◌∙◌, ◌∷◌, ◌≡◌, ◌⊎◌,
}
use vault_recon_ai.Prelude.Int.{ℤ}
use vault_recon_ai.Result.{>>=-eq-ok, none_ne_some, of_option, of_option-ok, ok, ok-injective}
use vault_recon_ai.Text.{Text, codes}
use vault_recon_ai.Value.{Fields}
use vault_recon_ai.Vault.{Vault, get, scan_prefix}
use vault_recon_ai.Vault.Codec.{Codec}
use vault_recon_ai.Vault.Window.{
  in_window, primary_record, scan_merchant_window, stamped, text_record, window_entry, window_loop,
}

nothing-In : {A : Type 0} {a : A} → In a [] → ⊥
nothing-In i = elim i [ ]

module _ {F : Type 0} (codec : Codec F) (db : Vault) where
  -- An index entry dated in the window, whose key names a record with a text that loads as r.
  pub record Holds (start_ts end_ts : ℤ) (record_type : Option Text) (e : Text × Text)
      (r : Fields F) : Type 0 where
    pub found : ℤ × Text
    pub raw : Text
    pub dated : stamped e.0 ≡ ok (some found)
    pub within : in_window start_ts end_ts record_type found ≡ true
    pub stored : get db e.1 ≡ some raw
    pub filled : is_empty raw ≡ false
    pub loads_as : codec.loads raw ≡ some r

  text_record-some :
      (o : Option Text) {r : Fields F}
      → text_record codec db o ≡ ok (some r)
      → (raw : Text) × (o ≡ some raw) × (is_empty raw ≡ false) × (codec.loads raw ≡ some r)
  unfolding text_record
  text_record-some none h = absurd (none_ne_some (ok-injective h))
  text_record-some (some []) h = absurd (none_ne_some (ok-injective h))
  text_record-some (some (c ∷ raw)) h =
      let (x, parsed, same) = >>=-eq-ok (of_option (codec.loads (c ∷ raw))) _ h in
      (c ∷ raw, refl, refl, of_option-ok (codec.loads (c ∷ raw)) parsed ∙ ok-injective same)

  window_entry-Holds :
      (start_ts end_ts : ℤ) (record_type : Option Text) (e : Text × Text) (o : Option (ℤ × Text))
      {r : Fields F}
      → stamped e.0 ≡ ok o
      → window_entry codec db start_ts end_ts record_type o e.1 ≡ ok (some r)
      → Holds start_ts end_ts record_type e r
  unfolding window_entry
  window_entry-Holds start_ts end_ts record_type e none s h = absurd (none_ne_some (ok-injective h))
  window_entry-Holds start_ts end_ts record_type e (some found) s h =
      elim (Bool-cases (in_window start_ts end_ts record_type found)) [
        | inr out ↦ absurd (none_ne_some (ok-injective (rw out at h)))
        | inl inside ↦
            let (raw, stored, filled, loads_as) =
              text_record-some (get db e.1) (unfold primary_record in rw inside at h) in
            record {
              found = found;
              raw = raw;
              dated = s;
              within = inside;
              stored = stored;
              filled = filled;
              loads_as = loads_as;
            }
      ]

  primary_record_lem :
      (k : Text) {raw : Text} {r : Fields F}
      → get db k ≡ some raw
      → is_empty raw ≡ false
      → codec.loads raw ≡ some r
      → primary_record codec db k ≡ ok (some r)
  unfolding primary_record
  primary_record_lem k stored filled loads_as = rw stored (rw (filled, loads_as) refl)

  -- Whatever a dated entry gives, it gives the record that it holds.
  Holds-window_entry :
      (start_ts end_ts : ℤ) (record_type : Option Text) (e : Text × Text) {o : Option (ℤ × Text)}
      {r : Fields F}
      → stamped e.0 ≡ ok o
      → Holds start_ts end_ts record_type e r
      → window_entry codec db start_ts end_ts record_type o e.1 ≡ ok (some r)
  unfolding window_entry
  Holds-window_entry start_ts end_ts record_type e s h =
      rw (ok-injective (sym s ∙ h.dated), h.within)
        (primary_record_lem e.1 h.stored h.filled h.loads_as)

  -- The list that one step of the loop leaves.
  abbrev kept : Option (Fields F) → List (Fields F) → List (Fields F)
  kept x rest = elim x [ none ↦ rest | some r ↦ r ∷ rest ]

  kept-In :
      (x : Option (Fields F)) (rest : List (Fields F)) {r : Fields F}
      → In r (kept x rest)
      → (x ≡ some r) ⊎ In r rest
  kept-In none rest i = inr i
  kept-In (some y) rest (In.here same) = inl (ap some same)
  kept-In (some y) rest (In.there i) = inr i

  In-kept :
      (x : Option (Fields F)) (rest : List (Fields F)) {r : Fields F}
      → (x ≡ some r) ⊎ In r rest
      → In r (kept x rest)
  In-kept none rest (inl e) = absurd (none_ne_some e)
  In-kept none rest (inr i) = i
  In-kept (some y) rest (inl e) = In.here (some-injective _ _ e)
  In-kept (some y) rest (inr i) = In.there i

  abbrev Found : ℤ → ℤ → Option Text → List (Text × Text) → Fields F → Type 0
  Found start_ts end_ts record_type es r =
      (e : Text × Text) × In e es × Holds start_ts end_ts record_type e r

  window_loop_sound :
      (start_ts end_ts : ℤ) (record_type : Option Text) (es : List (Text × Text))
      {rs : List (Fields F)} {r : Fields F}
      → window_loop codec db start_ts end_ts record_type es ≡ ok rs
      → In r rs
      → Found start_ts end_ts record_type es r
  unfolding window_loop
  window_loop_sound start_ts end_ts record_type [] {rs} {r} h i =
      absurd (nothing-In (subst (In r) (sym (ok-injective h)) i))
  window_loop_sound start_ts end_ts record_type (e ∷ es) {rs} {r} h i =
      let (found, dated, h1) = >>=-eq-ok (stamped e.0) _ h in
      let (x, gave, h2) =
        >>=-eq-ok (window_entry codec db start_ts end_ts record_type found e.1) _ h1 in
      let (rest, later, h3) =
        >>=-eq-ok (window_loop codec db start_ts end_ts record_type es) _ h2 in
      elim (kept-In x rest (subst (In r) (sym (ok-injective h3)) i)) [
        | inl now ↦ (
          e,
          In.here refl,
          window_entry-Holds start_ts end_ts record_type e found dated (rw now at gave),
        )
        | inr after ↦
            let (e', i', holds) = window_loop_sound start_ts end_ts record_type es later after in
            (e', In.there i', holds)
      ]

  window_loop_complete :
      (start_ts end_ts : ℤ) (record_type : Option Text) (es : List (Text × Text))
      {rs : List (Fields F)} {r : Fields F} (e' : Text × Text)
      → window_loop codec db start_ts end_ts record_type es ≡ ok rs
      → In e' es
      → Holds start_ts end_ts record_type e' r
      → In r rs
  unfolding window_loop
  window_loop_complete start_ts end_ts record_type [] e' h i holds = elim i [ ]
  window_loop_complete start_ts end_ts record_type (e ∷ es) {rs} {r} e' h (In.here same) holds =
      let (found, dated, h1) = >>=-eq-ok (stamped e.0) _ h in
      let (x, gave, h2) =
        >>=-eq-ok (window_entry codec db start_ts end_ts record_type found e.1) _ h1 in
      let (rest, later, h3) =
        >>=-eq-ok (window_loop codec db start_ts end_ts record_type es) _ h2 in
      let this : Holds start_ts end_ts record_type e r = rw same holds in
      let gives = Holds-window_entry start_ts end_ts record_type e dated this in
      subst (In r) (ok-injective h3) (In-kept x rest (inl (ok-injective (sym gave ∙ gives))))
  window_loop_complete start_ts end_ts record_type (e ∷ es) {rs} {r} e' h (In.there i) holds =
      let (found, dated, h1) = >>=-eq-ok (stamped e.0) _ h in
      let (x, gave, h2) =
        >>=-eq-ok (window_entry codec db start_ts end_ts record_type found e.1) _ h1 in
      let (rest, later, h3) =
        >>=-eq-ok (window_loop codec db start_ts end_ts record_type es) _ h2 in
      subst (In r) (ok-injective h3) (
        In-kept x rest (inr (window_loop_complete start_ts end_ts record_type es e' later i holds)))

  -- A window scan that returns gives exactly the records that an entry of the merchant's index
  -- holds: the entry's key is dated in the window and of the type that is asked for, if one is, and
  -- names a record whose text is not empty and loads as the record.
  pub scan_merchant_window-Holds :
      (merchant_id : Text) (start_ts end_ts : ℤ) (record_type : Option Text) {rs : List (Fields F)}
      (r : Fields F)
      → scan_merchant_window codec db merchant_id start_ts end_ts record_type ≡ ok rs
      → In r rs ↔ (
          (e : Text × Text) × In e
            (scan_prefix db (codes "IDX:MERCHANT:" ++ (merchant_id ++ b':' ∷ [])))
          × Holds start_ts end_ts record_type e r)
  unfolding scan_merchant_window
  scan_merchant_window-Holds merchant_id start_ts end_ts record_type r h =
      let es = scan_prefix db (codes "IDX:MERCHANT:" ++ (merchant_id ++ b':' ∷ [])) in
      (
        (λ i. window_loop_sound start_ts end_ts record_type es h i),
        (λ f. window_loop_complete start_ts end_ts record_type es f.0 h f.1 f.2),
      )
