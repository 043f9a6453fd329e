-- ===== src/Ai/Evidence.antt =====
-- ai/evidence.py: evidence, without the time of its retrieval, which nothing
-- reads, and the verified set of it.
pub mod Laws
use vault_recon_ai.Prelude.{
  Bool, List, Option, String, [], is_some, length, map, ℕ, ◌++◌, ◌||◌, ◌∷◌,
}
use vault_recon_ai.Dict.{Dict, dict_get, dict_set, list_or_empty}
use vault_recon_ai.Text.{Text}
use vault_recon_ai.Value.{Fields}

pub record Evidence (F : Type 0) : Type 0 where
  pub evidence_id : Text
  pub record_id : Text
  pub evidence_type : Text
  pub source : String
  pub relevant_fields : Fields F
  pub provenance : Text

pub record EvidenceSet (F : Type 0) : Type 0 where
  pub by_id : Dict (Evidence F)
  pub by_record_id : Dict (List (Evidence F))

abbrev pub empty_set : {F : Type 0} → EvidenceSet F
empty_set = record { by_id = []; by_record_id = [] }

module _ {F : Type 0} where
  -- `add`
  unfoldable pub add_evidence : Evidence F → EvidenceSet F → EvidenceSet F
  unfolding dict_get dict_set
  add_evidence ev s = record {
    by_id = dict_set ev.evidence_id ev s.by_id;
    by_record_id =
        dict_set ev.record_id (list_or_empty (dict_get s.by_record_id ev.record_id) ++ ev ∷ [])
          s.by_record_id;
  }

  -- `get`
  unfoldable pub get_evidence : EvidenceSet F → Text → Option (Evidence F)
  unfolding dict_get
  get_evidence s evidence_id = dict_get s.by_id evidence_id

  -- `get_by_record_id`
  unfoldable pub get_by_record_id : EvidenceSet F → Text → List (Evidence F)
  unfolding dict_get
  get_by_record_id s record_id = list_or_empty (dict_get s.by_record_id record_id)

  -- `contains_id`
  unfoldable pub contains_id : EvidenceSet F → Text → Bool
  unfolding dict_get
  contains_id s i = is_some (dict_get s.by_id i) || is_some (dict_get s.by_record_id i)

  -- `all_evidence_ids`, `all_record_ids`
  unfoldable pub all_evidence_ids : EvidenceSet F → List Text
  all_evidence_ids s = map (λ e. e.0) s.by_id

  unfoldable pub all_record_ids : EvidenceSet F → List Text
  all_record_ids s = map (λ e. e.0) s.by_record_id

  -- `__len__`, and `_evidence_by_id.values()`
  unfoldable pub evidence_count : EvidenceSet F → ℕ
  evidence_count s = length s.by_id

  unfoldable pub evidence_values : EvidenceSet F → List (Evidence F)
  evidence_values s = map (λ e. e.1) s.by_id
