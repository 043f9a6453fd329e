-- ===== src/Similarity/Sets.antt =====
-- Counting in lists that hold each text once.
use vault_recon_ai.Prelude.{
  Bool, List, [], arith, false, filter, if◌then◌else◌, length, not, refl, sym, ◌+◌, ◌||◌, ◌∷◌, ◌≡◌,
  ◌≤◌,
}
use vault_recon_ai.Rules.Similarity.{distinct}
use vault_recon_ai.Similarity.{intersection_size, union_size}
use vault_recon_ai.Text.{Text, contains, text_eq, text_eq_iff}

abbrev pub IsOnce : List Text → Type 0
IsOnce [] = Unit
IsOnce (x ∷ xs) = (contains xs x ≡ false) × IsOnce xs

contains-cons :
    (x : Text) (xs : List Text) (a : Text) → contains (x ∷ xs) a ≡ (text_eq a x || contains xs a)
unfolding contains
contains-cons x xs a = refl

distinct-contains : (xs : List Text) (a : Text) → contains (distinct xs) a ≡ contains xs a
unfolding distinct
distinct-contains [] a = refl
distinct-contains (x ∷ xs) a = ground (
  arith,
  distinct-contains xs a,
  distinct-contains xs x,
  contains-cons x (distinct xs) a,
  contains-cons x xs a,
  text_eq_iff a x,
)

pub distinct-IsOnce : (xs : List Text) → IsOnce (distinct xs)
unfolding distinct
distinct-IsOnce [] = tt
distinct-IsOnce (x ∷ xs) = ground (arith, distinct-IsOnce xs)

-- One more text in the other list counts where it is found.
intersection-cons :
    (x : Text) (xs ys : List Text)
    → contains xs x ≡ false
    → IsOnce ys
    → length (filter (contains (x ∷ xs)) ys)
      ≡ length (filter (contains xs) ys) + (if contains ys x then 1 else 0)
intersection-cons x xs [] n once = unfold contains in refl
intersection-cons x xs (y ∷ ys) n (m, once) = ground (
  arith,
  intersection-cons x xs ys n once,
  contains-cons x xs y,
  contains-cons y ys x,
  text_eq_iff y x,
  text_eq_iff x y,
)

nothing_in : (ys : List Text) → length (filter (contains []) ys) ≡ 0
unfolding contains
nothing_in [] = refl
nothing_in (y ∷ ys) = nothing_in ys

pub intersection_size_comm :
    (xs ys : List Text) → IsOnce xs → IsOnce ys → intersection_size xs ys ≡ intersection_size ys xs
unfolding intersection_size
intersection_size_comm [] ys p q = sym (nothing_in ys)
intersection_size_comm (x ∷ xs) ys (n, p) q =
    ground (arith, intersection_size_comm xs ys p q, intersection-cons x xs ys n q)

-- A list splits into what passes and what does not.
filter-split :
    (f : Text → Bool) (xs : List Text)
    → length xs ≡ length (filter f xs) + length (filter (λ x. not (f x)) xs)
filter-split f [] = refl
filter-split f (x ∷ xs) = ground (arith, filter-split f xs)

pub union_size_comm :
    (xs ys : List Text) → IsOnce xs → IsOnce ys → union_size xs ys ≡ union_size ys xs
unfolding union_size intersection_size
union_size_comm xs ys p q =
    let both = intersection_size_comm xs ys p q in
    omega (arith, filter-split (contains ys) xs, filter-split (contains xs) ys, both)

pub intersection_le_union : (xs ys : List Text) → intersection_size xs ys ≤ union_size xs ys
unfolding union_size intersection_size
intersection_le_union xs ys = omega (arith, filter-split (contains ys) xs)
