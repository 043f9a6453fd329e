-- ===== src/Ai/Agent/Gather.antt =====
-- ai/agent.py, `investigate`: step 1, the evidence that the tools find.
use vault_recon_ai.Prelude.{
  Bool, List, Option, String, [], false, find?, if◌then◌else◌, is_empty, length, ltb, none, not,
  or_else, some, ◌&&◌, ◌++◌, ◌||◌, ◌∷◌,
}
use vault_recon_ai.Ai.Evidence.{
  Evidence, EvidenceSet, add_evidence, empty_set, evidence_values, get_by_record_id,
}
use vault_recon_ai.Ai.Toolkit.{
  InvestigationToolkit, evidence_record, get_fee_policy, get_similar_cases, search_by_order,
}
use vault_recon_ai.Dict.{dict_get}
use vault_recon_ai.Exceptions.{FinancialException}
use vault_recon_ai.Result.{Result, ok, ◌>>=◌}
use vault_recon_ai.Text.{Text, codes, contains, has_infix, text_eq}
use vault_recon_ai.Value.{Value}

pub record Gathered (F : Type 0) : Type 0 where
  pub evidence_set : EvidenceSet F
  pub tools_called : List Text

-- f"{tool}({a})" and f"{tool}({a}, {b})"
call_text : String → Text → Text
call_text tool a = codes tool ++ (b'(' ∷ (a ++ (b')' ∷ [])))

call_text_two : String → Text → Text → Text
unfolding call_text
call_text_two tool a b = call_text tool (a ++ (b',' ∷ 32 ∷ b))

-- An optional text in an f-string.
shown : Option Text → Text
shown none = codes "None"
shown (some s) = s

-- bool(x) of an optional text.
present : Option Text → Bool
present none = false
present (some s) = not (is_empty s)

module _ {F : Type 0} where
  -- `evidence_set.add(ev)`, and the call that is noted with it.
  note : Text → Gathered F → Evidence F → Gathered F
  unfolding add_evidence
  note call got ev = record {
    evidence_set = add_evidence ev got.evidence_set;
    tools_called = got.tools_called ++ call ∷ [];
  }

  note_optional : Text → Gathered F → Option (Evidence F) → Gathered F
  unfolding note
  note_optional call got none = got
  note_optional call got (some ev) = note call got ev

  note_all : Text → Gathered F → List (Evidence F) → Gathered F
  unfolding note
  note_all call got [] = got
  note_all call got (ev ∷ evs) = note_all call (note call got ev) evs

  -- The precedents are added, and no call is noted.
  add_all : Gathered F → List (Evidence F) → Gathered F
  unfolding add_evidence
  add_all got [] = got
  add_all got (ev ∷ evs) =
      add_all (record got { evidence_set = add_evidence ev got.evidence_set }) evs

  -- A field of a record's evidence, where it is a text.
  text_of : Option (Value F) → Option Text
  text_of (some (Value.str s)) = some s
  text_of _ = none

  -- The first evidence of a type.
  first_of_type : Text → EvidenceSet F → Option (Evidence F)
  unfolding evidence_values text_eq
  first_of_type kind s = find? (λ ev. text_eq ev.evidence_type kind) (evidence_values s)

  field_of : Option (Evidence F) → String → Option Text
  unfolding text_of dict_get
  field_of none key = none
  field_of (some ev) key = text_of (dict_get ev.relevant_fields (codes key))

module _ {F : Type 0} (kit : InvestigationToolkit F) where
  -- The record types that are tried for a related id with no order behind it.
  by_types : Text → List String → Gathered F → Result (Gathered F)
  unfolding evidence_record note_optional call_text_two
  by_types rel_id [] got = ok got
  by_types rel_id (kind ∷ kinds) got = do
    found ← evidence_record kit (codes kind) rel_id
    by_types rel_id kinds (note_optional (call_text_two "get_record" (codes kind) rel_id) got found)

  -- 1b
  related_evidence : List Text → Gathered F → Result (Gathered F)
  unfolding by_types note_all call_text search_by_order
  related_evidence [] got = ok got
  related_evidence (rel_id ∷ ids) got = do
    found ← search_by_order kit rel_id
    let got' = note_all (call_text "search_by_order" rel_id) got found
    tried ←
        (if is_empty found
          then by_types rel_id
              ("PAYMENT" ∷ "PROCESSOR" ∷ "INVOICE" ∷ "BANK" ∷ "SETTLEMENT" ∷ "BATCH" ∷ "REFUND"
                ∷ [])
              got'
          else ok got')
    related_evidence ids tried

  -- 1c
  fee_evidence : FinancialException F → Gathered F → Gathered F
  unfolding contains shown first_of_type field_of present get_fee_policy note_optional call_text_two
  fee_evidence e got =
      let pay = first_of_type (codes "PAYMENT") got.evidence_set in
      let proc = first_of_type (codes "PROCESSOR") got.evidence_set in
      let method = field_of pay "payment_method" in
      let currency = field_of (or_else pay proc) "currency" in
      let name = field_of proc "processor_name" in
      if contains (codes "FEE_MISMATCH" ∷ codes "FEE_DISCREPANCY" ∷ codes "UNKNOWN_FEE_POLICY" ∷ [])
          e.exception_type
        && (present method || present name || present currency)
      then note_optional (call_text_two "get_fee_policy" e.merchant_id (shown method)) got
          (get_fee_policy kit (some e.merchant_id) name method currency)
      else got

  customer_evidence : List Text → Gathered F → Result (Gathered F)
  unfolding note_all call_text search_by_order
  customer_evidence [] got = ok got
  customer_evidence (ckey ∷ keys) got = do
    found ← search_by_order kit ckey
    customer_evidence keys (note_all (call_text "search_by_customer" ckey) got found)

  -- 1d
  bundled_evidence : FinancialException F → Gathered F → Result (Gathered F)
  unfolding customer_evidence has_infix get_by_record_id
  bundled_evidence e got =
      if has_infix (codes "BUNDLED") e.exception_type
        || ltb 1 (length (get_by_record_id got.evidence_set e.primary_record_id))
      then customer_evidence (e.primary_record_id ∷ e.related_record_ids) got
      else ok got

  -- Steps 1a to 1e.
  unfoldable pub gather : FinancialException F → Result (Gathered F)
  unfolding evidence_record note_optional call_text_two related_evidence fee_evidence
      bundled_evidence add_all get_similar_cases
  gather e = do
    primary ← evidence_record kit e.primary_record_type e.primary_record_id
    let first =
        note_optional (call_text_two "get_record" e.primary_record_type e.primary_record_id)
          (record { evidence_set = empty_set; tools_called = [] }) primary
    related ← related_evidence e.related_record_ids first
    bundled ← bundled_evidence e (fee_evidence e related)
    ok (add_all bundled (get_similar_cases kit e.exception_type))
