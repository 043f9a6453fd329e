-- ===== src/Matcher/Index/Names.antt =====
-- recon/matcher.py: the value and the kind that an index key names.
use mathlib.Core.List.{append_assoc}
use vault_recon_ai.Prelude.{List, String, [], refl, some, ◌++◌, ◌∙◌, ◌∷◌, ◌≡◌}
use vault_recon_ai.Matcher.Index.{index_name, split_tail}
use vault_recon_ai.Schemas.Keys.{index_key}
use vault_recon_ai.Text.{Text, codes, join, split}
use vault_recon_ai.Text.Pieces.{Lacks, join-split, split-Lacks, split-append}

split_tail-last : (xs : List Text) (t u : Text) → split_tail (xs ++ t ∷ u ∷ []) ≡ some (xs, t)
unfolding split_tail
split_tail-last [] t u = refl
split_tail-last (x ∷ []) t u = refl
split_tail-last (x ∷ y ∷ []) t u = refl
split_tail-last (x ∷ y ∷ z ∷ xs) t u = rw (split_tail-last (y ∷ z ∷ xs) t u) refl

-- The parts of an index key.
split-index_key :
    (group by kind id : Text)
    → Lacks b':' group
    → Lacks b':' kind
    → Lacks b':' id
    → split b':' (codes "IDX:" ++ (group ++ (b':' ∷ (by ++ (b':' ∷ (kind ++ (b':' ∷ id)))))))
      ≡ codes "IDX" ∷ group ∷ (split b':' by ++ kind ∷ id ∷ [])
split-index_key group by kind id g k i =
    let tail = by ++ (b':' ∷ (kind ++ (b':' ∷ id))) in
    rw
      (
        split-append b':' (codes "IDX") (group ++ (b':' ∷ tail)),
        split-append b':' group tail,
        split-append b':' by (kind ++ (b':' ∷ id)),
        split-append b':' kind id,
        split-Lacks b':' (codes "IDX") (refl, (refl, (refl, tt))),
        split-Lacks b':' group g,
        split-Lacks b':' kind k,
        split-Lacks b':' id i,
      )
      refl

named :
    (key a g : Text) (xs : List Text) (t u : Text)
    → split b':' key ≡ a ∷ g ∷ (xs ++ t ∷ u ∷ [])
    → index_name key ≡ some (join b':' xs, t)
unfolding index_name
named key a g xs t u h = rw (index_name, h, split_tail-last xs t u) refl

-- An index key names the value and the kind that it was built from, whatever stands in the value,
-- where its group, its kind and its id hold no colon.
pub index_name-index_key :
    (group : String) (by : Text) (kind : String) (id : Text)
    → Lacks b':' (codes group)
    → Lacks b':' (codes kind)
    → Lacks b':' id
    → index_name (index_key group by kind id) ≡ some (by, codes kind)
index_name-index_key group by kind id g k i =
    let key : index_key group by kind id
        ≡ codes "IDX:" ++ (codes group ++ (b':' ∷ (by ++ (b':' ∷ (codes kind ++ (b':' ∷ id)))))) =
      simp append_assoc in
    rw key (
      named _ (codes "IDX") (codes group) (split b':' by) (codes kind) id
        (split-index_key (codes group) by (codes kind) id g k i)
      ∙ rw (join-split b':' by) refl)
