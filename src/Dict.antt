-- ===== src/Dict.antt =====
-- Python's `dict` with text keys, in insertion order: an assignment keeps the place of its key.
use vault_recon_ai.Prelude.{List, Option, [], arith, if◌then◌else◌, none, refl, some, ◌∷◌, ◌≡◌}
use vault_recon_ai.Text.{Text, text_eq, text_eq_iff}

abbrev pub Dict {ℓ} : Type ℓ → Type ℓ
Dict V = List (Text × V)

module _ {ℓ} {V : Type ℓ} where
  -- d.get(k)
  unfoldable pub dict_get : Dict V → Text → Option V
  unfolding text_eq
  dict_get [] k = none
  dict_get ((j, v) ∷ m) k = if text_eq j k then some v else dict_get m k

  -- d[k] = v
  unfoldable pub dict_set : Text → V → Dict V → Dict V
  unfolding text_eq
  dict_set k v [] = (k, v) ∷ []
  dict_set k v ((j, w) ∷ m) =
      let rest = dict_set k v m in if text_eq j k then (j, v) ∷ m else (j, w) ∷ rest

  pub get-set :
      (k j : Text) (v : V) (m : Dict V)
      → dict_get (dict_set k v m) j ≡ (if text_eq k j then some v else dict_get m j)
  unfolding dict_get dict_set
  get-set k j v [] = refl
  get-set k j v ((i, w) ∷ m) =
      ground (arith, text_eq_iff k j, text_eq_iff i k, text_eq_iff i j, get-set k j v m)

-- d.get(k, []) for a dict of lists.
abbrev pub list_or_empty {ℓ} : {A : Type ℓ} → Option (List A) → List A
list_or_empty none = []
list_or_empty (some l) = l
