-- ===== src/Ai/Toolkit.antt =====
-- ai/tools.py: `InvestigationToolkit`. Its methods read the vault and return evidence.
use mathlib.Core.Option
use vault_recon_ai.Prelude.{
  List, Option, String, [], if◌then◌else◌, is_empty, none, some, ◌++◌, ◌∷◌,
}
use vault_recon_ai.Ai.Evidence.{Evidence}
use vault_recon_ai.Fees.{FeePolicy, FeePolicyRegistry, match_policy}
use vault_recon_ai.Matcher.Index.{Entry}
use vault_recon_ai.Result.{Result, ok, ◌>>=◌}
use vault_recon_ai.Schemas.Keys.{index_prefix}
use vault_recon_ai.Text.{Text, clean_reference, codes, last_part, split, text_eq, upper}
use vault_recon_ai.Value.{Fields, Value}
use vault_recon_ai.Vault.{Vault, scan_prefix}
use vault_recon_ai.Vault.Codec.{Codec}
use vault_recon_ai.Vault.Records.{get_record}

abbrev case_fields : {F : Type 0} → String → String → String → String → Fields F
case_fields id type condition resolution =
    (codes "case_id", Value.str (codes id))
    ∷ (codes "exception_type", Value.str (codes type))
    ∷ (codes "condition", Value.str (codes condition))
    ∷ (codes "resolution", Value.str (codes resolution))
    ∷ []

-- `HISTORICAL_CASES`: each case's id, its type and its fields.
abbrev pub HistoricalCase : Type 0 → Type 0
HistoricalCase F = Text × Text × Fields F

historical_cases : {F : Type 0} → List (HistoricalCase F)
historical_cases =
    (
      codes "HIST_001",
      codes "FEE_DISCREPANCY",
      case_fields "HIST_001" "FEE_DISCREPANCY" "International card surcharge of 3.5%" "RESOLVED"
          ++ ((codes "rule_id", Value.str (codes "RULE_INTL_CARD_3.5"))
              ∷ (
                codes "rationale",
                Value.str
                    (codes "Merchant agreed to 3.5% rate for cross-border card transactions."),
              )
              ∷ []),
    )
    ∷ (
      codes "HIST_002",
      codes "NOISY_BANK_REFERENCE",
      case_fields "HIST_002" "NOISY_BANK_REFERENCE"
            "Bank narrative contains order ID or settlement suffix within 48 hours" "RESOLVED"
          ++ ((
            codes "rationale",
            Value.str
                (codes "Bank narrative truncates prefix but preserves trailing unique identifier."),
          )
              ∷ []),
    )
    ∷ (
      codes "HIST_003",
      codes "AMOUNT_MISMATCH",
      case_fields "HIST_003" "AMOUNT_MISMATCH"
            "Invoice amount higher than payment with no coupon/credit applied" "HUMAN_REVIEW"
          ++ ((
            codes "rationale",
            Value.str (
                codes "Unexplained underpayment must be routed to collections or billing support."),
          )
              ∷ []),
    )
    ∷ []

pub record InvestigationToolkit (F : Type 0) : Type 0 where
  pub db : Vault
  pub codec : Codec F
  pub fee_registry : FeePolicyRegistry F

-- parts[1] and parts[2], if len(parts) >= 3.
key_parts : List Text → Option (Text × Text)
key_parts (a ∷ b ∷ c ∷ rest) = some (b, c)
key_parts _ = none

module _ {F : Type 0} (kit : InvestigationToolkit F) where
  record_evidence : Text → Text → Fields F → Evidence F
  record_evidence rec_type record_id fields = record {
    evidence_id = codes "EVID_" ++ (rec_type ++ (b'_' ∷ record_id));
    record_id = record_id;
    evidence_type = rec_type;
    source = "MiniVaultDB";
    relevant_fields = fields;
    provenance = codes "MiniVaultDB:REC:" ++ (rec_type ++ (b':' ∷ record_id));
  }

  -- `get_record`; an empty dict of fields is no evidence.
  unfoldable pub evidence_record : Text → Text → Result (Option (Evidence F))
  unfolding record_evidence get_record upper
  evidence_record record_type record_id = do
    let rec_type = upper record_type
    found ← get_record kit.codec kit.db rec_type record_id
    elim found [
      | none ↦ ok none
      | some fields ↦
          ok (if is_empty fields then none else some (record_evidence rec_type record_id fields))
    ]

  -- The records of a list of index entries, those that are there.
  unfoldable pub entries_evidence : Text → List Entry → Result (List (Evidence F))
  unfolding evidence_record last_part
  entries_evidence rec_type [] = ok []
  entries_evidence rec_type (e ∷ es) = do
    found ← evidence_record rec_type (last_part e.1)
    rest ← entries_evidence rec_type es
    ok (elim found [ none ↦ rest | some ev ↦ ev ∷ rest ])

  order_evidence : Text → List String → Result (List (Evidence F))
  unfolding entries_evidence scan_prefix
  order_evidence order_id [] = ok []
  order_evidence order_id (kind ∷ kinds) = do
    found ← entries_evidence (codes kind) (scan_prefix kit.db (index_prefix "ORDER" order_id kind))
    rest ← order_evidence order_id kinds
    ok (found ++ rest)

  -- `search_by_order`, and `search_by_customer`, which is the same search.
  unfoldable pub search_by_order : Text → Result (List (Evidence F))
  unfolding order_evidence
  search_by_order order_id =
      order_evidence order_id ("PAYMENT" ∷ "INVOICE" ∷ "PROCESSOR" ∷ "REFUND" ∷ "ADJUSTMENT" ∷ [])

  reference_evidence : List Entry → Result (List (Evidence F))
  unfolding key_parts evidence_record split
  reference_evidence [] = ok []
  reference_evidence (e ∷ es) = elim (key_parts (split b':' e.1)) [
    | none ↦ reference_evidence es
    | some (rec_type, rec_id) ↦ do
      found ← evidence_record rec_type rec_id
      rest ← reference_evidence es
      ok (elim found [ none ↦ rest | some ev ↦ ev ∷ rest ])
  ]

  -- `search_by_reference`
  unfoldable pub search_by_reference : Text → Result (List (Evidence F))
  unfolding reference_evidence scan_prefix clean_reference
  search_by_reference reference =
      reference_evidence
        (scan_prefix kit.db (codes "IDX:REF:" ++ (clean_reference reference ++ (b':' ∷ []))))

  policy_evidence : FeePolicy F → Evidence F
  policy_evidence p = record {
    evidence_id = codes "EVID_POLICY_" ++ p.policy_id;
    record_id = p.policy_id;
    evidence_type = codes "FEE_POLICY";
    source = "FeePolicyRegistry";
    relevant_fields =
        (codes "policy_id", Value.str p.policy_id)
        ∷ (codes "name", Value.str p.name)
        ∷ (codes "percentage_rate", Value.float p.percentage_rate)
        ∷ (codes "fixed_charge", Value.float p.fixed_charge)
        ∷ (codes "currency", Value.str p.currency)
        ∷ (codes "payment_method", Value.str p.payment_method)
        ∷ (codes "processor", Value.str p.processor)
        ∷ [];
    provenance = codes "FeePolicyRegistry:" ++ p.policy_id;
  }

  -- `get_fee_policy`
  unfoldable pub get_fee_policy :
      (merchant_id processor payment_method currency : Option Text) → Option (Evidence F)
  unfolding policy_evidence match_policy
  get_fee_policy merchant_id processor payment_method currency =
      Option.map policy_evidence
        (match_policy kit.fee_registry merchant_id processor payment_method currency)

  cases_evidence : Text → List (HistoricalCase F) → List (Evidence F)
  unfolding text_eq
  cases_evidence exception_type [] = []
  cases_evidence exception_type ((id, type, fields) ∷ cases) =
      let rest = cases_evidence exception_type cases in
      if text_eq type exception_type
      then record {
        evidence_id = codes "EVID_PRECEDENT_" ++ id;
        record_id = id;
        evidence_type = codes "CASE_PRECEDENT";
        source = "PrecedentLibrary";
        relevant_fields = fields;
        provenance = codes "PrecedentLibrary:" ++ id;
      }
        ∷ rest
      else rest

  -- `get_similar_cases`
  unfoldable pub get_similar_cases : Text → List (Evidence F)
  unfolding cases_evidence historical_cases
  get_similar_cases exception_type = cases_evidence exception_type historical_cases
