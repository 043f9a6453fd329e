-- ===== src/Ai/Evidence/Laws.antt =====
-- ai/evidence.py: what an evidence set holds after `add`.
use vault_recon_ai.Prelude.{[], arith, if◌then◌else◌, some, ◌++◌, ◌||◌, ◌∷◌, ◌≡◌}
use vault_recon_ai.Ai.Evidence.{
  Evidence, EvidenceSet, add_evidence, contains_id, get_by_record_id, get_evidence,
}
use vault_recon_ai.Dict.{dict_get, get-set, list_or_empty}
use vault_recon_ai.Text.{Text, text_eq, text_eq_iff}

module _ {F : Type 0} where
  -- After an addition, an id is contained if it is the evidence's, its record's, or contained
  -- before; the evidence's id gives the evidence, any other id gives what it gave before; and the
  -- evidence stands last under its record.
  pub add_evidence_lem :
      (ev : Evidence F) (s : EvidenceSet F) (i : Text)
      → (contains_id (add_evidence ev s) i
          ≡ (text_eq ev.evidence_id i || (text_eq ev.record_id i || contains_id s i)))
        × (get_evidence (add_evidence ev s) i
            ≡ (if text_eq ev.evidence_id i then some ev else get_evidence s i))
        × (get_by_record_id (add_evidence ev s) i ≡ (
            if text_eq ev.record_id i
            then get_by_record_id s i ++ ev ∷ []
            else get_by_record_id s i))
  unfolding contains_id add_evidence get_evidence get_by_record_id
  add_evidence_lem ev s i =
      let kept = list_or_empty (dict_get s.by_record_id ev.record_id) ++ ev ∷ [] in
      let records = get-set ev.record_id i kept s.by_record_id in
      (
        ground (arith, get-set ev.evidence_id i ev s.by_id, records),
        get-set ev.evidence_id i ev s.by_id,
        ground (arith, text_eq_iff ev.record_id i, records),
      )
