-- ===== src/Ai/Prompt/Infix.antt =====
-- Python's `in` on texts: what a longer text contains.
use vault_recon_ai.Prelude.{[], arith, refl, true, ◌++◌, ◌∷◌, ◌≡◌}
use vault_recon_ai.Text.{Text, has_infix, starts_with}

pub starts_with-append : (s t p : Text) → starts_with s p ≡ true → starts_with (s ++ t) p ≡ true
unfolding starts_with
starts_with-append s t [] h = refl
starts_with-append [] t (b ∷ p) h = cc
starts_with-append (a ∷ s) t (b ∷ p) h = ground (arith, starts_with-append s t p)

pub starts_with-infix : (p s : Text) → starts_with s p ≡ true → has_infix p s ≡ true
unfolding starts_with has_infix
starts_with-infix [] [] h = refl
starts_with-infix (b ∷ p) [] h = cc
starts_with-infix p (a ∷ s) h = rw h refl

-- What a part contains, the whole contains.
pub has_infix-left : (p s t : Text) → has_infix p s ≡ true → has_infix p (s ++ t) ≡ true
unfolding has_infix
has_infix-left [] [] [] h = refl
has_infix-left [] [] (a ∷ t) h = unfold starts_with in refl
has_infix-left (b ∷ p) [] t h = cc
has_infix-left p (a ∷ s) t h = ground (arith, has_infix-left p s t, starts_with-append (a ∷ s) t p)

pub has_infix-right : (p s t : Text) → has_infix p t ≡ true → has_infix p (s ++ t) ≡ true
unfolding has_infix
has_infix-right p [] t h = h
has_infix-right p (a ∷ s) t h = ground (arith, has_infix-right p s t h)
