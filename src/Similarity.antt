-- ===== src/Similarity.antt =====
-- recon/similarity.py: token and n-gram overlap of a bank narrative and a reference. A Python set
-- of texts is a list that holds each once.
pub mod Sets
pub mod Scores
pub mod Tests
use vault_recon_ai.Prelude.{
  Bool, List, [], false, filter, if◌then◌else◌, is_empty, leb, length, ltb, map, not, take, true, ℕ,
  ◌&&◌, ◌+◌, ◌==◌, ◌||◌, ◌∷◌,
}
use vault_recon_ai.Float.{Float}
use vault_recon_ai.Prelude.Int.{pos}
use vault_recon_ai.Rules.Similarity.{distinct, greater, keep_or_space, words}
use vault_recon_ai.Text.{Text, contains, has_infix, is_space, strip, upper}

-- `normalize_financial_text`
unfoldable pub normalize_financial_text : Text → Text
unfolding keep_or_space upper strip
normalize_financial_text text = strip (map keep_or_space (upper text))

-- `extract_tokens`
unfoldable pub extract_tokens : ℕ → Text → List Text
unfolding distinct words normalize_financial_text
extract_tokens min_len text =
    distinct (filter (λ t. leb min_len (length t)) (words (normalize_financial_text text)))

-- clean[i : i + n] for i in range(len(clean) - n + 1)
unfoldable pub windows : ℕ → Text → List Text
windows n [] = if n == 0 then [] ∷ [] else []
windows n (c ∷ s) =
    let rest = windows n s in if ltb (length (c ∷ s)) n then [] else take n (c ∷ s) ∷ rest

-- `generate_ngrams`
unfoldable pub generate_ngrams : ℕ → Text → List Text
unfolding windows distinct normalize_financial_text is_space
generate_ngrams n text =
    let clean = filter (λ c. not (is_space c)) (normalize_financial_text text) in
    if ltb (length clean) n
    then (if is_empty clean then [] else clean ∷ [])
    else distinct (windows n clean)

-- len(a.intersection(b)) and len(a.union(b))
unfoldable pub intersection_size : List Text → List Text → ℕ
unfolding contains
intersection_size a b = length (filter (contains b) a)

unfoldable pub union_size : List Text → List Text → ℕ
unfolding contains
union_size a b = length a + length (filter (λ y. not (contains a y)) b)

module _ {F : Type 0} ⦃d : Float F⦄ where
  open d use {lit, of_int, div, le}

  -- The score of two sets, 0.0 where one of them is empty.
  unfoldable pub overlap_score : List Text → List Text → F
  unfolding intersection_size union_size
  overlap_score a b =
      if is_empty a || is_empty b
      then lit 0 0
      else div (of_int (pos (intersection_size a b))) (of_int (pos (union_size a b)))

  -- `token_overlap_score`
  unfoldable pub token_overlap_score : Text → Text → F
  unfolding overlap_score extract_tokens
  token_overlap_score s1 s2 = overlap_score (extract_tokens 3 s1) (extract_tokens 3 s2)

  -- `ngram_jaccard_similarity`
  unfoldable pub ngram_jaccard_similarity : ℕ → Text → Text → F
  unfolding overlap_score generate_ngrams
  ngram_jaccard_similarity n s1 s2 = overlap_score (generate_ngrams n s1) (generate_ngrams n s2)

  -- `is_fuzzy_reference_match`
  unfoldable pub is_fuzzy_reference_match : F → Text → Text → Bool × F
  unfolding normalize_financial_text has_infix token_overlap_score ngram_jaccard_similarity greater
  is_fuzzy_reference_match threshold narrative reference =
      let norm_narrative = normalize_financial_text narrative in
      let norm_ref = normalize_financial_text reference in
      let t_score = token_overlap_score narrative reference in
      let ng_score = ngram_jaccard_similarity 3 narrative reference in
      if not (is_empty norm_ref) && has_infix norm_ref norm_narrative
      then (true, lit 10 1)
      else if le threshold t_score
      then (true, t_score)
      else if le threshold ng_score
      then (true, ng_score)
      else (false, greater t_score ng_score)
