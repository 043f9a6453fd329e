-- ===== src/Similarity/Tests.antt =====
-- recon/similarity.py on small texts.
use vault_recon_ai.Prelude.{false, refl, true, ◌||◌, ◌≡◌, ◌⊎◌}
use vault_recon_ai.Float.Micro.{Micro, micro_float}
use vault_recon_ai.Prelude.Int.{leb_ℤ, pos}
use vault_recon_ai.Similarity.{
  is_fuzzy_reference_match, ngram_jaccard_similarity, token_overlap_score,
}
use vault_recon_ai.Similarity.Scores.{
  IsBest, is_fuzzy_reference_match-IsBest, scores_comm, stands_in,
}
use vault_recon_ai.Text.{codes}

fuzzy_found :
    is_fuzzy_reference_match (pos 350_000) (codes "PAYOUT GRP-7 ACME") (codes "grp-7")
    ≡ (true, pos 1_000_000)
unfolding is_fuzzy_reference_match micro_float
fuzzy_found = refl

scores_comm_example :
    ◌≡◌ {A = Micro}
      (token_overlap_score (codes "acme payout") (codes "ACME refund"))
      (token_overlap_score (codes "ACME refund") (codes "acme payout"))
    × ◌≡◌ {A = Micro}
        (ngram_jaccard_similarity 3 (codes "acme payout") (codes "ACME refund"))
        (ngram_jaccard_similarity 3 (codes "ACME refund") (codes "acme payout"))
scores_comm_example = scores_comm 3 (codes "acme payout") (codes "ACME refund")

is_fuzzy_reference_match-IsBest_example :
    ((is_fuzzy_reference_match (pos 350_000) (codes "PAYOUT ACME") (codes "ACME")).0 ≡ (
      stands_in (codes "PAYOUT ACME") (codes "ACME")
      || leb_ℤ (pos 350_000) (token_overlap_score (codes "PAYOUT ACME") (codes "ACME"))
      || leb_ℤ (pos 350_000) (ngram_jaccard_similarity 3 (codes "PAYOUT ACME") (codes "ACME"))))
    × (((stands_in (codes "PAYOUT ACME") (codes "ACME") ≡ true)
          × ((is_fuzzy_reference_match (pos 350_000) (codes "PAYOUT ACME") (codes "ACME")).1
              ≡ pos 1_000_000))
        ⊎ ((stands_in (codes "PAYOUT ACME") (codes "ACME") ≡ false)
            × IsBest
                (pos 350_000)
                (token_overlap_score (codes "PAYOUT ACME") (codes "ACME"))
                (ngram_jaccard_similarity 3 (codes "PAYOUT ACME") (codes "ACME"))
                (is_fuzzy_reference_match (pos 350_000) (codes "PAYOUT ACME") (codes "ACME")).1))
unfolding micro_float
is_fuzzy_reference_match-IsBest_example =
    is_fuzzy_reference_match-IsBest (pos 350_000) (codes "PAYOUT ACME") (codes "ACME")
