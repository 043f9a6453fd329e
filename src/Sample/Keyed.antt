-- ===== src/Sample/Keyed.antt =====
-- The sample vault stores its processor record under a key that ends in its id.
-- An entry with another text is not the one that is looked for.
use vault_recon_ai.Prelude.{
  All, Bool-cases, List, [], arith, false, inl, inr, refl, some, true, ◌++◌, ◌∷◌, ◌≡◌,
}
use vault_recon_ai.Float.Micro.{Micro, micro_float}
use vault_recon_ai.Matcher.Index.{Entry}
use vault_recon_ai.Matcher.OneToOne.{IsKeyed}
use vault_recon_ai.Sample.{load_letter, other_entries, processor_x1, sample_engine, sample_vault}
use vault_recon_ai.Schemas.{ProcessorTransaction}
use vault_recon_ai.Text.{Text, codes, last_part, text_eq, text_eq_iff}
use vault_recon_ai.Vault.{get, lookup}

skip_entry :
    (j v : Text) (m : List Entry) (k raw : Text)
    → text_eq v (codes "X") ≡ false
    → lookup k ((j, v) ∷ m) ≡ some raw
    → text_eq raw (codes "X") ≡ true
    → lookup k m ≡ some raw
unfolding lookup
skip_entry j v m k raw other at x = elim (Bool-cases (text_eq j k)) [
  | inl y ↦
      let same_text : some v ≡ some raw = rw y at at in
      absurd (let both : text_eq raw (codes "X") ≡ false = ground (arith, text_eq_iff v raw) in cc)
  | inr n ↦ rw n at at
]

last_entry :
    (es : List Entry) (j v k raw : Text)
    → All (λ (e : Entry). text_eq e.1 (codes "X") ≡ false) es
    → lookup k (es ++ (j, v) ∷ []) ≡ some raw
    → text_eq raw (codes "X") ≡ true
    → text_eq j k ≡ true
last_entry [] j v k raw others at x = unfold lookup in ground arith
last_entry ((i, w) ∷ es) j v k raw (other, others) at x =
    last_entry es j v k raw others (skip_entry i w (es ++ (j, v) ∷ []) k raw other at x) x

-- Only one key holds the text of a processor's record.
stored_x :
    (k raw : Text)
    → get sample_vault k ≡ some raw
    → text_eq raw (codes "X") ≡ true
    → text_eq (codes "REC:PROCESSOR:X1") k ≡ true
unfolding get text_eq
stored_x k raw at x =
    last_entry other_entries (codes "REC:PROCESSOR:X1") (codes "X") k raw
      (refl, (refl, (refl, (refl, tt)))) at x

loaded_x :
    (k raw : Text) (p : ProcessorTransaction Micro)
    → text_eq (codes "REC:PROCESSOR:X1") k ≡ true
    → load_letter "X" processor_x1 raw ≡ some p
    → last_part k ≡ p.processor_transaction_id
unfolding last_part
loaded_x k raw p is parsed =
    let key : codes "REC:PROCESSOR:X1" ≡ k =
      ground (arith, text_eq_iff (codes "REC:PROCESSOR:X1") k) in
    let same_record : processor_x1 ≡ p = ground arith in rw (← key, ← same_record) refl

has_text :
    (raw : Text) (p : ProcessorTransaction Micro)
    → load_letter "X" processor_x1 raw ≡ some p
    → text_eq raw (codes "X") ≡ true
has_text raw p parsed = ground arith

pub sample-IsKeyed : IsKeyed sample_engine
sample-IsKeyed = record {
  processors =
      λ k raw p at parsed. loaded_x k raw p (stored_x k raw at (has_text raw p parsed)) parsed;
  settlements = λ k raw s at parsed. cc;
}
