-- ===== src/Similarity/Scores.antt =====
-- recon/similarity.py: laws of the scores.
use vault_recon_ai.Prelude.{
  Bool, List, [], arith, false, filter, if◌then◌else◌, is_empty, leb, length, ltb, not, refl, true,
  ℕ, ◌&&◌, ◌||◌, ◌∷◌, ◌≡◌, ◌⊎◌,
}
use vault_recon_ai.Float.{Float}
use vault_recon_ai.Rules.Similarity.{distinct, greater, words}
use vault_recon_ai.Similarity.{
  extract_tokens, generate_ngrams, is_fuzzy_reference_match, ngram_jaccard_similarity,
  normalize_financial_text, overlap_score, token_overlap_score, windows,
}
use vault_recon_ai.Similarity.Sets.{
  IsOnce, distinct-IsOnce, intersection_size_comm, union_size_comm,
}
use vault_recon_ai.Text.{Text, contains, has_infix, is_space}

extract_tokens-IsOnce : (n : ℕ) (s : Text) → IsOnce (extract_tokens n s)
unfolding extract_tokens
extract_tokens-IsOnce n s =
    distinct-IsOnce (filter (λ t. leb n (length t)) (words (normalize_financial_text s)))

distinct_or-IsOnce :
    (b b' : Bool) (w : Text) (ws : List Text)
    → IsOnce (if b then (if b' then [] else w ∷ []) else distinct ws)
distinct_or-IsOnce true true w ws = tt
distinct_or-IsOnce true false w ws = unfold contains in (refl, tt)
distinct_or-IsOnce false b' w ws = distinct-IsOnce ws

generate_ngrams-IsOnce : (n : ℕ) (s : Text) → IsOnce (generate_ngrams n s)
unfolding generate_ngrams
generate_ngrams-IsOnce n s =
    let clean = filter (λ c. not (is_space c)) (normalize_financial_text s) in
    distinct_or-IsOnce (ltb (length clean) n) (is_empty clean) clean (windows n clean)

-- The reference stands in the narrative, as the texts are normalised.
abbrev pub stands_in : Text → Text → Bool
stands_in narrative reference =
    not (is_empty (normalize_financial_text reference))
    && has_infix (normalize_financial_text reference) (normalize_financial_text narrative)

module _ {F : Type 0} ⦃d : Float F⦄ where
  open d use {le, lit, lt}

  overlap_score_comm :
      (a b : List Text) → IsOnce a → IsOnce b → ◌≡◌ {A = F} (overlap_score a b) (overlap_score b a)
  unfolding overlap_score
  overlap_score_comm [] [] p q = refl
  overlap_score_comm [] (y ∷ ys) p q = refl
  overlap_score_comm (x ∷ xs) [] p q = refl
  overlap_score_comm (x ∷ xs) (y ∷ ys) p q =
      rw (intersection_size_comm (x ∷ xs) (y ∷ ys) p q, union_size_comm (x ∷ xs) (y ∷ ys) p q) refl

  -- Both scores are symmetric, for n-grams of any length.
  pub scores_comm :
      (n : ℕ) (s t : Text)
      → ◌≡◌ {A = F} (token_overlap_score s t) (token_overlap_score t s)
        × ◌≡◌ {A = F} (ngram_jaccard_similarity n s t) (ngram_jaccard_similarity n t s)
  unfolding token_overlap_score ngram_jaccard_similarity
  scores_comm n s t = (
    overlap_score_comm _ _ (extract_tokens-IsOnce 3 s) (extract_tokens-IsOnce 3 t),
    overlap_score_comm _ _ (generate_ngrams-IsOnce n s) (generate_ngrams-IsOnce n t),
  )

  -- What the score is where the reference does not stand in the narrative: that of the tokens or,
  -- where that misses the threshold, of the 3-grams; the greater one where both miss it.
  abbrev pub IsBest : F → F → F → F → Type 0
  IsBest threshold tokens ngrams score =
      ((le threshold tokens ≡ true) × (score ≡ tokens))
      ⊎ ((le threshold tokens ≡ false) × (le threshold ngrams ≡ true) × (score ≡ ngrams))
      ⊎ ((le threshold tokens ≡ false)
          × (le threshold ngrams ≡ false)
          × (score ≡ (if lt tokens ngrams then ngrams else tokens)))

  abbrev best_of : F → Bool → F → F → Bool × F
  best_of threshold stands t n =
      if stands
      then (true, lit 10 1)
      else if le threshold t
      then (true, t)
      else if le threshold n
      then (true, n)
      else (false, if lt t n then n else t)

  is_best :
      (threshold : F) (stands : Bool) (t n : F)
      → ((best_of threshold stands t n).0 ≡ (stands || le threshold t || le threshold n))
        × (((stands ≡ true) × ((best_of threshold stands t n).1 ≡ lit 10 1))
            ⊎ ((stands ≡ false) × IsBest threshold t n (best_of threshold stands t n).1))
  is_best threshold stands t n = ground arith

  -- A match is reported exactly where the reference stands in the narrative or one of the two scores
  -- reaches the threshold. The score is 1.0 where the reference stands in the narrative; else that
  -- of the tokens or, where that misses the threshold, of the 3-grams, or the greater one where
  -- both miss it.
  pub is_fuzzy_reference_match-IsBest :
      (threshold : F) (narrative reference : Text)
      → ((is_fuzzy_reference_match threshold narrative reference).0 ≡ (
          stands_in narrative reference
          || le threshold (token_overlap_score narrative reference)
          || le threshold (ngram_jaccard_similarity 3 narrative reference)))
        × (((stands_in narrative reference ≡ true)
              × ((is_fuzzy_reference_match threshold narrative reference).1 ≡ lit 10 1))
            ⊎ ((stands_in narrative reference ≡ false)
                × IsBest threshold
                    (token_overlap_score narrative reference)
                    (ngram_jaccard_similarity 3 narrative reference)
                    (is_fuzzy_reference_match threshold narrative reference).1))
  unfolding is_fuzzy_reference_match greater
  is_fuzzy_reference_match-IsBest threshold narrative reference =
      is_best threshold (stands_in narrative reference) (token_overlap_score narrative reference)
        (ngram_jaccard_similarity 3 narrative reference)
