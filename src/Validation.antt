-- ===== src/Validation.antt =====
-- app/services/validation and app/interfaces/validation.py: the rules for one row, and the pipeline
-- that app/composition.py builds from the settings.
pub mod Trimmed
pub mod Verdict
use batch_processing_system.Common.{
  ℕ, ◌/◌, String, List, [], ◌∷◌, ◌++◌, Bool, true, false, ltb, length, if◌then◌else◌,
}
use batch_processing_system.Common.Text.{codes, strip, decimal, mentions, ◌<>◌}
use batch_processing_system.Domain.{PromptItem}
use batch_processing_system.Config.{Settings}

-- The set `seen_ids`, as the list of what was added to it.
pub record ValidationContext : Type 0 where
  pub seen_ids : List String

abbrev pub no_ids : ValidationContext
no_ids = record { seen_ids = [] }

pub record ValidationOutcome : Type 0 where
  pub ok : Bool
  pub errors : List String

-- The classes below ValidationRule, with the fields of each.
pub data ValidationRule : Type 0 where
  non_empty_external_id unique_external_id : ValidationRule
  non_empty_prompt : (min_chars : ℕ) → ValidationRule
  max_prompt_tokens : (max_tokens : ℕ) → ValidationRule

-- `not s or not s.strip()`
pub is_blank : String → Bool
is_blank s = elim (strip (codes s)) [ [] ↦ true | _ ↦ false ]

pub approx_tokens : String → ℕ
approx_tokens s = length (codes s) / 4

-- A rule's messages and the context that it leaves.
unfoldable pub check :
    ValidationRule → PromptItem → ValidationContext → List String × ValidationContext
unfolding is_blank approx_tokens
check non_empty_external_id item ctx =
    (if is_blank item.external_id then "missing or empty external id" ∷ [] else [], ctx)
check (non_empty_prompt min_chars) item ctx = (
  if ltb (length (strip (codes item.prompt))) min_chars
      then ("prompt shorter than min_chars=" <> decimal min_chars) ∷ []
      else [],
  ctx,
)
check (max_prompt_tokens max_tokens) item ctx = (
  if ltb max_tokens (approx_tokens item.prompt)
      then ("prompt ~"
          <> (decimal (approx_tokens item.prompt)
              <> (" tokens exceeds max " <> decimal max_tokens)))
        ∷ []
      else [],
  ctx,
)
check unique_external_id item ctx =
    if mentions ctx.seen_ids item.external_id
    then (("duplicate external id: " <> item.external_id) ∷ [], ctx)
    else ([], record { seen_ids = item.external_id ∷ ctx.seen_ids })

-- The loop of validate_item: `errors.extend` over the rules.
unfoldable pub check_all :
    List ValidationRule → PromptItem → ValidationContext → List String × ValidationContext
check_all [] item ctx = ([], ctx)
check_all (rule ∷ rules) item ctx =
    let (errors, ctx') = check rule item ctx in
    let (more, ctx'') = check_all rules item ctx' in (errors ++ more, ctx'')

abbrev pub no_errors : List String → Bool
no_errors [] = true
no_errors (e ∷ es) = false

unfoldable pub validate_item :
    List ValidationRule → PromptItem → ValidationContext → ValidationOutcome × ValidationContext
unfolding check_all
validate_item rules item ctx =
    let (errors, ctx') = check_all rules item ctx in
    (record { ok = no_errors errors; errors = errors }, ctx')

unfoldable pub build_validation_pipeline : Settings → List ValidationRule
build_validation_pipeline settings =
    non_empty_external_id
    ∷ non_empty_prompt settings.min_prompt_chars
    ∷ max_prompt_tokens settings.max_prompt_tokens
    ∷ (if settings.reject_duplicate_ids then unique_external_id ∷ [] else [])
