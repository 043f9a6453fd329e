-- ===== src/Text/Pieces.antt =====
-- `str.split` and `str.join` on one separator.
use vault_recon_ai.Prelude.{
  All, List, [], arith, false, if◌then◌else◌, is_empty, refl, ℕ, ◌++◌, ◌==◌, ◌∷◌, ◌≡◌,
}
use vault_recon_ai.Text.{Text, join, push_head, split}

-- No character of the text is the separator.
abbrev pub Lacks : ℕ → Text → Type 0
Lacks sep s = All (λ c. (c == sep) ≡ false) s

push_head-join : (sep c : ℕ) (ps : List Text) → join sep (push_head c ps) ≡ c ∷ join sep ps
unfolding push_head join
push_head-join sep c [] = refl
push_head-join sep c (p ∷ []) = refl
push_head-join sep c (p ∷ q ∷ ps) = refl

push_head-append :
    (c : ℕ) (ps qs : List Text)
    → is_empty ps ≡ false
    → push_head c (ps ++ qs) ≡ push_head c ps ++ qs
unfolding push_head
push_head-append c [] qs h = cc
push_head-append c (p ∷ ps) qs h = refl

split-ne : (sep : ℕ) (s : Text) → is_empty (split sep s) ≡ false
unfolding split push_head
split-ne sep [] = refl
split-ne sep (c ∷ s) =
    elim (split sep s)
      as (λ (o : List Text). is_empty (if c == sep then [] ∷ o else push_head c o) ≡ false) [
        | [] ↦ ground arith
        | p ∷ ps ↦ ground arith
      ]

join_nil_head :
    (sep : ℕ) (ps : List Text) → is_empty ps ≡ false → join sep ([] ∷ ps) ≡ sep ∷ join sep ps
unfolding join
join_nil_head sep [] h = cc
join_nil_head sep (p ∷ ps) h = refl

pub join-split : (sep : ℕ) (s : Text) → join sep (split sep s) ≡ s
unfolding split join
join-split sep [] = refl
join-split sep (c ∷ s) = ground (
  arith,
  join-split sep s,
  join_nil_head sep (split sep s),
  push_head-join sep c (split sep s),
  split-ne sep s,
)

pub split-append : (sep : ℕ) (s t : Text) → split sep (s ++ sep ∷ t) ≡ split sep s ++ split sep t
unfolding split
split-append sep [] t = ground arith
split-append sep (c ∷ s) t =
    ground
      (arith, split-append sep s t, push_head-append c (split sep s) (split sep t), split-ne sep s)

pub split-Lacks : (sep : ℕ) (s : Text) → Lacks sep s → split sep s ≡ s ∷ []
unfolding split push_head
split-Lacks sep [] h = refl
split-Lacks sep (c ∷ s) (h, hs) = rw (split-Lacks sep s hs, h) refl
