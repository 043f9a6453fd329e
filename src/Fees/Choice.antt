-- ===== src/Fees/Choice.antt =====
-- recon/rules.py: what `match_policy` chooses.
use mathlib.Core.Option.{some-injective}
use vault_recon_ai.Prelude.{
  All, Bool, Bool-cases, List, Option, [], ap, arith, false, find?, inl, inr, none, or_else, refl,
  some, true, ◌++◌, ◌∙◌, ◌∷◌, ◌≡◌, ◌⊎◌,
}
use vault_recon_ai.Dict.{Dict}
use vault_recon_ai.Fees.{
  FeePolicy, FeePolicyRegistry, by_method, by_method_and_currency, by_processor, exact_policy,
  get_policy, match_policy, policy_list, reversed_values,
}
use vault_recon_ai.Text.{Text, codes}

or_else-none : {A : Type 0} (x y : Option A) → or_else x y ≡ none → (x ≡ none) × (y ≡ none)
or_else-none none y h = (refl, h)
or_else-none (some a) y h = absurd (cc)

-- Three searches that find nothing: no element passes any of the tests.
find?-nothing :
    {A : Type 0} (f g h : A → Bool) (xs : List A)
    → find? f xs ≡ none
    → find? g xs ≡ none
    → find? h xs ≡ none
    → All (λ x. (f x ≡ false) × (g x ≡ false) × (h x ≡ false)) xs
find?-nothing f g h [] a b c = tt
find?-nothing f g h (x ∷ xs) a b c = ground (arith, find?-nothing f g h xs)

-- The last of the values that passes the test.
pub record LastOf {V : Type 0} (f : V → Bool) (m : Dict V) (v : V) : Type 0 where
  pub before : Dict V
  pub key : Text
  pub after : Dict V
  pub parts : m ≡ before ++ (key, v) ∷ after
  pub passes : f v ≡ true
  pub later : All (λ (e : Text × V). f e.1 ≡ false) after

-- None of the values passes it.
abbrev pub NoneOf : {V : Type 0} → (V → Bool) → Dict V → Type 0
NoneOf f m = All (λ e. f e.1 ≡ false) m

next_choice : {A B C D : Type 0} → A ⊎ (B × C) → (C → D) → A ⊎ (B × D)
next_choice (inl a) f = inl a
next_choice (inr (b, c)) f = inr (b, f c)

module _ {F : Type 0} where
  -- A search from the last policy on finds the last that passes, or there is none and the search
  -- goes on with `acc`.
  find?-reversed :
      (f : FeePolicy F → Bool) (m : Dict (FeePolicy F)) (acc : List (FeePolicy F))
      → ((p : FeePolicy F) × (find? f (reversed_values m acc) ≡ some p) × LastOf f m p)
        ⊎ ((find? f (reversed_values m acc) ≡ find? f acc) × NoneOf f m)
  unfolding reversed_values
  find?-reversed f [] acc = inr (refl, tt)
  find?-reversed f ((k, q) ∷ m) acc = elim (find?-reversed f m (q ∷ acc)) [
    | inl (p, found, last) ↦ inl (
      p,
      found,
      record {
        before = (k, q) ∷ last.before;
        key = last.key;
        after = last.after;
        parts = ap (λ r. (k, q) ∷ r) last.parts;
        passes = last.passes;
        later = last.later;
      },
    )
    | inr (same, rejected) ↦ elim (Bool-cases (f q)) [
      | inl passed_q ↦ inl (
        q,
        same ∙ rw passed_q refl,
        record {
          before = [];
          key = k;
          after = m;
          parts = refl;
          passes = passed_q;
          later = rejected;
        },
      )
      | inr failed_q ↦ inr (same ∙ rw failed_q refl, (failed_q, rejected))
    ]
  ]

  search_newest :
      (f : FeePolicy F → Bool) (reg : FeePolicyRegistry F)
      → ((p : FeePolicy F) × (find? f (policy_list reg) ≡ some p) × LastOf f reg.policies p)
        ⊎ ((find? f (policy_list reg) ≡ none) × NoneOf f reg.policies)
  unfolding policy_list
  search_newest f reg = find?-reversed f reg.policies []

  -- The first choice is the newest that passes the test; else there is none, and the next is taken.
  choose_newest :
      (f : FeePolicy F → Bool) (reg : FeePolicyRegistry F) (y : Option (FeePolicy F))
      (p : FeePolicy F)
      → or_else (find? f (policy_list reg)) y ≡ some p
      → LastOf f reg.policies p ⊎ (NoneOf f reg.policies × (y ≡ some p))
  choose_newest f reg y p h = elim (search_newest f reg) [
    | inl (q, found, last) ↦
        let same : or_else (some q) y ≡ some p = rw found at h in
        inl (rw (← some-injective q p same) last)
    | inr (nothing, rejected) ↦ inr (rejected, rw nothing at h)
  ]

  -- Why a policy is chosen: it is the newest registered one that passes the test of a loop, and none
  -- passes that of an earlier loop; or none passes any, and it is the fallback.
  abbrev pub Chosen :
      FeePolicyRegistry F → Option Text → Option Text → Option Text → FeePolicy F → Type 0
  Chosen reg processor payment_method currency p =
      LastOf (exact_policy processor payment_method currency) reg.policies p
      ⊎ (NoneOf (exact_policy processor payment_method currency) reg.policies
          × (LastOf (by_method_and_currency payment_method currency) reg.policies p
              ⊎ (NoneOf (by_method_and_currency payment_method currency) reg.policies
                  × (LastOf (by_method payment_method) reg.policies p
                      ⊎ (NoneOf (by_method payment_method) reg.policies
                          × (LastOf (by_processor processor) reg.policies p
                              ⊎ (NoneOf (by_processor processor) reg.policies
                                  × ((reg.allow_global_fallback ≡ true)
                                      × (get_policy reg (codes "DEFAULT_FALLBACK") ≡ some p)))))))))

  -- A policy that `match_policy` gives is the newest registered one that passes the test of one of
  -- the four loops, where none passes that of an earlier loop; or none passes any, the fallback is
  -- allowed, and the policy is the one that is registered for it.
  pub match_policy-Chosen :
      (reg : FeePolicyRegistry F) (m processor method currency : Option Text) (p : FeePolicy F)
      → match_policy reg m processor method currency ≡ some p
      → Chosen reg processor method currency p
  unfolding match_policy get_policy
  match_policy-Chosen reg m processor method currency p h =
      next_choice (choose_newest (exact_policy processor method currency) reg _ p h) (λ h2.
        next_choice (choose_newest (by_method_and_currency method currency) reg _ p h2) (λ h3.
          next_choice (choose_newest (by_method method) reg _ p h3) (λ h4.
            next_choice (choose_newest (by_processor processor) reg _ p h4) (λ h5. ground arith))))

  -- Where no policy is found, none of the registry passes the test of the first, the third or the
  -- fourth loop (the second is stricter than the third), and the fallback is not allowed or not
  -- registered.
  pub match_policy-none :
      (reg : FeePolicyRegistry F) (m processor method currency : Option Text)
      → match_policy reg m processor method currency ≡ none
      → All
          (λ (p : FeePolicy F).
            (exact_policy processor method currency p ≡ false)
            × (by_method method p ≡ false)
            × (by_processor processor p ≡ false))
          (policy_list reg)
        × ((reg.allow_global_fallback ≡ false) ⊎ (get_policy reg (codes "DEFAULT_FALLBACK") ≡ none))
  unfolding match_policy get_policy
  match_policy-none reg m processor method currency h =
      let l = policy_list reg in
      let (whole, h2) = or_else-none (find? (exact_policy processor method currency) l) _ h in
      let (pair, h3) = or_else-none (find? (by_method_and_currency method currency) l) _ h2 in
      let (meth, h4) = or_else-none (find? (by_method method) l) _ h3 in
      let (proc, h5) = or_else-none (find? (by_processor processor) l) _ h4 in
      (
        find?-nothing (exact_policy processor method currency) (by_method method)
            (by_processor processor) l whole meth proc,
        ground arith,
      )
