-- ===== src/Ai/Agent/Answer.antt =====
-- ai/agent.py: `_parse_json_response`. `json.loads` is the parameter `loads`.
-- The fields that the controller reads, each None where the object has no such key.
use vault_recon_ai.Prelude.{
  List, Option, [], drop, if◌then◌else◌, is_empty, none, or_else, some, ◌&&◌, ◌==◌, ◌∷◌, ◌≢◌,
}
use vault_recon_ai.Text.{Text, codes, is_space, starts_with, strip}
use vault_recon_ai.Value.{Value}

pub record Reply (F : Type 0) : Type 0 where
  pub decision : Option Text
  pub exception_type : Option Text
  pub confidence : Option F
  pub reason : Option Text
  pub evidence_ids : Option (List (Value F))
  pub evidence : Option (List (Value F))
  pub recommended_action : Option Text
  pub findings : Option (List Text)

-- What `json.loads` gives: an object whose fields have the types that the controller expects, a
-- value that counts as false, or any other value, at which the controller raises.
pub data Parsed (F : Type 0) : Type 0 where
  object : Reply F → Parsed F
  empty_value : Parsed F
  ill_typed : Parsed F

abbrev fence : Text
fence = b'`' ∷ b'`' ∷ b'`' ∷ []

drop_space : Text → Text
drop_space [] = []
drop_space (c ∷ s) = if is_space c then drop_space s else c ∷ s

-- The shortest `.*?\}` that `\s*` and a fence follow.
until_fence : Text → Option Text
unfolding starts_with drop_space
until_fence [] = none
until_fence (c ∷ s) =
    let rest = until_fence s in
    if c == b'}' && starts_with (drop_space s) fence
    then some (c ∷ [])
    else elim rest [ none ↦ none | some body ↦ some (c ∷ body) ]

-- `(?:json)?\s*(\{.*?\})\s*` and the fence, behind a fence.
block_behind : Text → Option Text
unfolding starts_with drop_space until_fence
block_behind s =
    let body = drop_space (if starts_with s (codes "json") then drop 4 s else s) in
    if starts_with body (b'{' ∷ []) then until_fence body else none

-- The first fenced object.
fenced_object : Text → Option Text
unfolding starts_with block_behind
fenced_object [] = none
fenced_object (c ∷ s) =
    let later = fenced_object s in
    if starts_with (c ∷ s) fence then or_else (block_behind (drop 2 s)) later else later

-- The text up to its last closing brace, if it has one.
to_last_brace : Text → Option Text
to_last_brace [] = none
to_last_brace (c ∷ s) = elim (to_last_brace s) [
  | some body ↦ some (c ∷ body)
  | none ↦ if c == b'}' then some (c ∷ []) else none
]

-- `(\{.*\})`: from the first opening brace that has a closing one to the last closing one.
outer_object : Text → Option Text
unfolding to_last_brace
outer_object [] = none
outer_object (c ∷ s) =
    let later = outer_object s in if c == b'{' then or_else (to_last_brace (c ∷ s)) later else later

module _ {F : Type 0} (loads : Text → Option (Parsed F)) where
  load_optional : Option Text → Option (Parsed F)
  load_optional none = none
  load_optional (some s) = loads s

  -- The text itself, else the fenced object, else the outer object.
  unfoldable pub parse_json_response : Text → Option (Parsed F)
  unfolding load_optional fenced_object outer_object strip
  parse_json_response raw =
      let text = strip raw in
      if is_empty raw
      then none
      else or_else (loads text)
          (or_else (load_optional (fenced_object text)) (load_optional (outer_object text)))

  module _ (typed : (s : Text) → loads s ≢ some ill_typed) where
    load_optional-typed : (s : Option Text) → load_optional s ≢ some ill_typed
    unfolding load_optional
    load_optional-typed none h = cc
    load_optional-typed (some s) h = typed s h

    or_else-typed :
        (a b : Option (Parsed F))
        → a ≢ some ill_typed
        → b ≢ some ill_typed
        → or_else a b ≢ some ill_typed
    or_else-typed none b p q h = q h
    or_else-typed (some x) b p q h = p h

    -- Where no text loads as a value of other types, none parses as one.
    pub parse_json_response-typed : (raw : Text) → parse_json_response raw ≢ some ill_typed
    unfolding parse_json_response
    parse_json_response-typed [] h = cc
    parse_json_response-typed (c ∷ raw) h =
        or_else-typed (loads (strip (c ∷ raw))) _ (typed (strip (c ∷ raw)))
          (or_else-typed _ _ (load_optional-typed _) (load_optional-typed _)) h
