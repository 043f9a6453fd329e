-- ===== src/Matcher/Distinct.antt =====
-- The ids of a list of matches, and lists without repetition.
use vault_recon_ai.Prelude.{
  List, Option, [], arith, false, none, refl, some, ◌++◌, ◌||◌, ◌∙◌, ◌∷◌, ◌≡◌,
}
use vault_recon_ai.Matcher.{ReconciliationMatch}
use vault_recon_ai.Text.{Text, contains, text_eq, text_eq_iff}

abbrev prepend : Option Text → List Text → List Text
prepend none xs = xs
prepend (some x) xs = x ∷ xs

-- The targets that the matches name, in order.
abbrev pub matched_ids : {F : Type 0} → List (ReconciliationMatch F) → List Text
matched_ids [] = []
matched_ids (m ∷ ms) = prepend m.processor_transaction_id (matched_ids ms)

abbrev pub Distinct : List Text → Type 0
Distinct [] = Unit
Distinct (x ∷ xs) = (contains xs x ≡ false) × Distinct xs

prepend-append : (o : Option Text) (xs ys : List Text) → prepend o (xs ++ ys) ≡ prepend o xs ++ ys
prepend-append none xs ys = refl
prepend-append (some x) xs ys = refl

pub matched_ids-append :
    {F : Type 0} (ms : List (ReconciliationMatch F)) (m : ReconciliationMatch F) (id : Text)
    → m.processor_transaction_id ≡ some id
    → matched_ids (ms ++ m ∷ []) ≡ matched_ids ms ++ id ∷ []
matched_ids-append [] m id e = rw e
matched_ids-append (k ∷ ms) m id e =
    rw (matched_ids-append ms m id e) (prepend-append k.processor_transaction_id _ _)

pub contains-append :
    (xs : List Text) (a x : Text) → contains (xs ++ a ∷ []) x ≡ (contains xs x || text_eq x a)
unfolding contains
contains-append [] a x = ground arith
contains-append (y ∷ xs) a x = ground (arith, contains-append xs a x)

pub contains-append_cons :
    (xs ys : List Text) (a x : Text)
    → contains xs x ≡ contains ys x
    → contains (xs ++ a ∷ []) x ≡ contains (a ∷ ys) x
contains-append_cons xs ys a x h = contains-append xs a x ∙ unfold contains in ground arith

-- A later element differs from an earlier one, read either way.
text_eq-false : (x a : Text) → text_eq a x ≡ false → text_eq x a ≡ false
text_eq-false x a h = ground (arith, text_eq_iff a x, text_eq_iff x a)

pub Distinct-append :
    (xs : List Text) (a : Text) → Distinct xs → contains xs a ≡ false → Distinct (xs ++ a ∷ [])
unfolding contains
Distinct-append [] a h free = (refl, tt)
Distinct-append (x ∷ xs) a h free = (
  ground (arith, contains-append xs a x, text_eq-false x a),
  Distinct-append xs a h.1 (ground arith),
)
