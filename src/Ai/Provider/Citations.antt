-- ===== src/Ai/Provider/Citations.antt =====
-- ai/llm.py: what the offline provider cites.
use vault_recon_ai.Prelude.{
  All, Bool, List, Option, [], arith, drop, false, inl, inr, length, map, none, or_default, or_else,
  refl, some, suc, true, zero, ℕ, ◌++◌, ◌-◌, ◌∙◌, ◌∷◌, ◌≡◌, ◌⊎◌,
}
use vault_recon_ai.Ai.Agent.Answer.{Reply}
use vault_recon_ai.Ai.Prompt.Infix.{has_infix-right, starts_with-infix}
use vault_recon_ai.Ai.Provider.{
  Completion, bundled_reply, dumped, fee_reply, mock_completion, plain, typed_reply,
}
use vault_recon_ai.Ai.Provider.Patterns.{
  char_run, find_all, invoice_char, invoice_ids, invoice_tag, policy_char, policy_id, search_tagged,
  tagged,
}
use vault_recon_ai.Ai.Provider.Replies.{
  amount_reply, bundle_reply, contradicting_reply, default_reply, duplicate_reply, injection_reply,
  missing_reply, no_bundle_reply, surcharge_reply, uncertain_reply, unexplained_fee_reply,
  volume_reply,
}
use vault_recon_ai.Dict.{list_or_empty}
use vault_recon_ai.Float.{Float}
use vault_recon_ai.Text.{Text, codes, has_infix, starts_with}
use vault_recon_ai.Value.{Value}

char_run-starts_with : (p : ℕ → Bool) (s : Text) → starts_with s (char_run p s) ≡ true
unfolding starts_with char_run
char_run-starts_with p [] = refl
char_run-starts_with p (c ∷ s) = ground (arith, char_run-starts_with p s)

starts_with-join :
    (s p q : Text)
    → starts_with s p ≡ true
    → starts_with (drop (length p) s) q ≡ true
    → starts_with s (p ++ q) ≡ true
unfolding starts_with
starts_with-join s [] q h k = k
starts_with-join [] (b ∷ p) q h k = cc
starts_with-join (a ∷ s) (b ∷ p) q h k = ground (arith, starts_with-join s p q)

-- A match stands at the start of the text.
tagged-starts_with :
    (prefix : Text) (p : ℕ → Bool) (s : Text) {f : Text}
    → tagged prefix p s ≡ some f
    → starts_with s f ≡ true
unfolding tagged
tagged-starts_with prefix p s h = ground (
  arith,
  starts_with-join s prefix (char_run p (drop (length prefix) s)),
  char_run-starts_with p (drop (length prefix) s),
)

-- What a search finds stands in the text.
search_tagged-infix :
    (prefix : Text) (p : ℕ → Bool) (s : Text) {f : Text}
    → search_tagged prefix p s ≡ some f
    → has_infix f s ≡ true
unfolding search_tagged
search_tagged-infix prefix p [] h = cc
search_tagged-infix prefix p (c ∷ s) {f} h =
    found_at (tagged prefix p (c ∷ s)) (λ k. search_tagged-infix prefix p s k) refl h
  where
    found_at :
        (m : Option Text)
        → (search_tagged prefix p s ≡ some f → has_infix f s ≡ true)
        → tagged prefix p (c ∷ s) ≡ m
        → or_else m (search_tagged prefix p s) ≡ some f
        → has_infix f (c ∷ s) ≡ true
    found_at none later e h = has_infix-right f (c ∷ []) s (later h)
    found_at (some g) later e h =
        starts_with-infix f (c ∷ s) (tagged-starts_with prefix p (c ∷ s) (e ∙ h))

invoice_tag-starts_with : (s : Text) {f : Text} → invoice_tag s ≡ some f → starts_with s f ≡ true
unfolding invoice_tag
invoice_tag-starts_with s {f} h = first_or (tagged (codes "EVID_INVOICE_") invoice_char s) refl h
  where
    first_or :
        (m : Option Text)
        → tagged (codes "EVID_INVOICE_") invoice_char s ≡ m
        → or_else m (tagged (codes "EVID_INV_") invoice_char s) ≡ some f
        → starts_with s f ≡ true
    first_or none e h = tagged-starts_with (codes "EVID_INV_") invoice_char s h
    first_or (some g) e h = tagged-starts_with (codes "EVID_INVOICE_") invoice_char s (e ∙ h)

-- What is in a text is in the text with one more character before it.
All-later :
    (c : ℕ) (s : Text) (fs : List Text)
    → All (λ f. has_infix f s ≡ true) fs
    → All (λ f. has_infix f (c ∷ s) ≡ true) fs
All-later c s [] h = tt
All-later c s (f ∷ fs) (h, hs) = (has_infix-right f (c ∷ []) s h, All-later c s fs hs)

find_all-infix :
    (match_at : Text → Option Text)
    → ((s f : Text) → match_at s ≡ some f → starts_with s f ≡ true)
    → (skip : ℕ) (s : Text) → All (λ f. has_infix f s ≡ true) (find_all match_at skip s)
unfolding find_all
find_all-infix match_at sound skip [] = tt
find_all-infix match_at sound (suc skip) (c ∷ s) =
    All-later c s (find_all match_at skip s) (find_all-infix match_at sound skip s)
find_all-infix match_at sound zero (c ∷ s) =
    at_match (match_at (c ∷ s)) refl (find_all-infix match_at sound 0 s)
      (λ n. find_all-infix match_at sound n s)
  where
    at_match :
        (m : Option Text)
        → match_at (c ∷ s) ≡ m
        → All (λ f. has_infix f s ≡ true) (find_all match_at 0 s)
        → ((n : ℕ) → All (λ f. has_infix f s ≡ true) (find_all match_at n s))
        → All
            (λ f. has_infix f (c ∷ s) ≡ true)
            (elim m [
              | none ↦ find_all match_at 0 s
              | some found ↦ found ∷ find_all match_at (length found - 1) s
            ])
    at_match none e now later = All-later c s (find_all match_at 0 s) now
    at_match (some g) e now later = (
      starts_with-infix g (c ∷ s) (sound (c ∷ s) g e),
      All-later c s (find_all match_at (length g - 1) s) (later (length g - 1)),
    )

module _ (F : Type 0) where
  -- A cited id that the prompt shows, or the policy that a fee answer names where it shows none.
  abbrev pub IsShown : Text → Value F → Type 0
  IsShown prompt v =
      (i : Text) × (v ≡ Value.str i)
      × ((has_infix i prompt ≡ true)
          ⊎ (i ≡ codes "EVID_POLICY_RULE_INTL_CARD_3.5")
          ⊎ (i ≡ codes "EVID_POLICY_RULE_HIGH_VOLUME_DISCOUNT"))

  unfoldable pub Cites : Text → Reply F → Type 0
  Cites prompt reply = All (IsShown prompt) (list_or_empty reply.evidence_ids)

  All-IsShown :
      (prompt : Text) (ids : List Text)
      → All (λ f. has_infix f prompt ≡ true) ids
      → All (IsShown prompt) (map Value.str ids)
  All-IsShown prompt [] h = tt
  All-IsShown prompt (i ∷ ids) (h, hs) = ((i, refl, inl h), All-IsShown prompt ids hs)

  -- An answer that is text cites nothing.
  unfoldable pub CitesOf : Text → Completion F → Type 0
  unfolding Cites
  CitesOf prompt (dumped r) = Cites prompt r
  CitesOf prompt (plain s) = Unit

module _ (F : Type 0) ⦃d : Float F⦄ where
  named :
      (prompt fallback : Text)
      → (fallback ≡ codes "EVID_POLICY_RULE_INTL_CARD_3.5")
        ⊎ (fallback ≡ codes "EVID_POLICY_RULE_HIGH_VOLUME_DISCOUNT")
      → IsShown F prompt (Value.str (or_default (policy_id prompt) fallback))
  unfolding policy_id
  named prompt fallback known =
      at_policy (search_tagged (codes "EVID_POLICY_") policy_char prompt) refl
    where
      at_policy :
          (m : Option Text)
          → search_tagged (codes "EVID_POLICY_") policy_char prompt ≡ m
          → IsShown F prompt (Value.str (or_default m fallback))
      at_policy none e = (fallback, refl, inr known)
      at_policy (some i) e =
          (i, refl, inl (search_tagged-infix (codes "EVID_POLICY_") policy_char prompt e))

  -- An answer that cites nothing.
  Cites-none :
      (prompt : Text) (reply : Reply F)
      → list_or_empty reply.evidence_ids ≡ []
      → Cites F prompt reply
  unfolding Cites
  Cites-none prompt reply h = rw h tt

  surcharge_reply-Cites :
      (prompt : Text)
      → Cites F prompt
          (surcharge_reply (or_default (policy_id prompt) (codes "EVID_POLICY_RULE_INTL_CARD_3.5")))
  unfolding surcharge_reply Cites
  surcharge_reply-Cites prompt = (named prompt _ (inl refl), tt)

  volume_reply-Cites :
      (prompt : Text)
      → Cites F prompt (
          volume_reply
            (or_default (policy_id prompt) (codes "EVID_POLICY_RULE_HIGH_VOLUME_DISCOUNT")))
  unfolding volume_reply Cites
  volume_reply-Cites prompt = (named prompt _ (inr refl), tt)

  bundle_reply-Cites : (prompt : Text) → Cites F prompt (bundle_reply (invoice_ids prompt))
  unfolding bundle_reply Cites invoice_ids
  bundle_reply-Cites prompt =
      All-IsShown F prompt (find_all invoice_tag 0 prompt)
        (find_all-infix invoice_tag (λ s f h. invoice_tag-starts_with s h) 0 prompt)

  fee_reply-Cites : (prompt : Text) → Cites F prompt (fee_reply prompt)
  unfolding fee_reply
  fee_reply-Cites prompt = ground (
    arith,
    surcharge_reply-Cites prompt,
    volume_reply-Cites prompt,
    Cites-none prompt unexplained_fee_reply (unfold unexplained_fee_reply in refl),
  )

  bundled_reply-Cites : (prompt : Text) → Cites F prompt (bundled_reply prompt)
  unfolding bundled_reply
  bundled_reply-Cites prompt = ground (
    arith,
    bundle_reply-Cites prompt,
    Cites-none prompt no_bundle_reply (unfold no_bundle_reply in refl),
  )

  typed_reply-Cites : (prompt : Text) → Cites F prompt (typed_reply prompt)
  unfolding typed_reply
  typed_reply-Cites prompt = ground (
    arith,
    fee_reply-Cites prompt,
    bundled_reply-Cites prompt,
    Cites-none prompt amount_reply (unfold amount_reply in refl),
    Cites-none prompt duplicate_reply (unfold duplicate_reply in refl),
    Cites-none prompt missing_reply (unfold missing_reply in refl),
    Cites-none prompt default_reply (unfold default_reply in refl),
  )

  CitesOf-dumped :
      (prompt : Text) (reply : Reply F) → Cites F prompt reply → CitesOf F prompt (dumped reply)
  unfolding CitesOf
  CitesOf-dumped prompt reply h = h

  CitesOf-plain : (prompt s : Text) → CitesOf F prompt (plain s)
  unfolding CitesOf
  CitesOf-plain prompt s = tt

  -- Unless the prompt holds the marker of the hallucination test, every id that the offline
  -- provider cites stands in the prompt, or is one of the two policies that it names by default.
  pub mock_completion-Cites :
      (prompt : Text)
      → has_infix (codes "TEST_SCENARIO_HALLUCINATE") prompt ≡ false
      → CitesOf F prompt (mock_completion prompt)
  unfolding mock_completion
  mock_completion-Cites prompt unmarked = ground (
    arith,
    CitesOf-dumped prompt injection_reply
        (Cites-none prompt injection_reply (unfold injection_reply in refl)),
    CitesOf-plain prompt (codes "This is an unparseable response that is not JSON at all."),
    CitesOf-dumped prompt uncertain_reply
        (Cites-none prompt uncertain_reply (unfold uncertain_reply in refl)),
    CitesOf-dumped prompt contradicting_reply
        (Cites-none prompt contradicting_reply (unfold contradicting_reply in refl)),
    CitesOf-dumped prompt (typed_reply prompt) (typed_reply-Cites prompt),
  )
