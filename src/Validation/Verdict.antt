-- ===== src/Validation/Verdict.antt =====
-- What the pipeline of the program accepts.
use batch_processing_system.Common.{
  ℕ, ◌+◌, ◌*◌, ◌≤◌, ◌<◌, String, List, [], ◌∷◌, Bool, true, false, length, ◌≡◌, ◌↔◌, refl, sym, ap,
  ◌∙◌, arith, eq_iff,
}
use batch_processing_system.Validation.Trimmed.{
  all_space, trimmed, length-strip, trimmed_none, trimmed_some,
}
use batch_processing_system.Common.Text.{codes, strip, mentions}
use batch_processing_system.Domain.{PromptItem}
use batch_processing_system.Config.{Settings}
use batch_processing_system.Validation.{
  ValidationContext, is_blank, approx_tokens, check, validate_item, build_validation_pipeline,
}

is_blank-eq : (s : String) → is_blank s ≡ all_space (codes s)
unfolding is_blank
is_blank-eq s = by_length (strip (codes s)) refl
  where
    by_length :
        (l : List ℕ)
        → strip (codes s) ≡ l
        → (elim l as (λ _. Bool) [ [] ↦ true | _ ↦ false ]) ≡ all_space (codes s)
    by_length [] e = sym (trimmed_none (codes s) (sym (length-strip (codes s)) ∙ ap length e))
    by_length (c ∷ cs) e =
        sym (trimmed_some (codes s) (length cs) (sym (length-strip (codes s)) ∙ ap length e))

-- A row that the program's pipeline lets pass: its id has a character that is no white space; from the
-- first such character of its prompt to the last there are enough; the prompt has fewer characters than
-- four for each token and four more; and its id was not seen before where duplicates are rejected.
pub record Acceptable (settings : Settings) (item : PromptItem) (ctx : ValidationContext)
    : Type 0 where
  pub named : all_space (codes item.external_id) ≡ false
  pub long_enough : settings.min_prompt_chars ≤ trimmed (codes item.prompt)
  pub short_enough : length (codes item.prompt) < 4 * settings.max_prompt_tokens + 4
  pub unseen : settings.reject_duplicate_ids ≡ true → mentions ctx.seen_ids item.external_id ≡ false

module _ (settings : Settings) (item : PromptItem) (ctx : ValidationContext) where
  -- The conditions in the program's words.
  record Passes : Type 0 where
    named : is_blank item.external_id ≡ false
    long_enough : settings.min_prompt_chars ≤ length (strip (codes item.prompt))
    short_enough : approx_tokens item.prompt ≤ settings.max_prompt_tokens
    unseen : settings.reject_duplicate_ids ≡ true → mentions ctx.seen_ids item.external_id ≡ false

  accepts : (validate_item (build_validation_pipeline settings) item ctx).0.ok ≡ true → Passes
  unfolding validate_item build_validation_pipeline check
  accepts h = ground arith

  accepted : Passes → (validate_item (build_validation_pipeline settings) item ctx).0.ok ≡ true
  unfolding validate_item build_validation_pipeline check
  accepted h = ground arith

  Passes-Acceptable : Passes → Acceptable settings item ctx
  unfolding approx_tokens
  Passes-Acceptable h = record {
    named = sym (is_blank-eq item.external_id) ∙ h.named;
    long_enough = omega (arith, h.long_enough, length-strip (codes item.prompt));
    short_enough = omega (arith, h.short_enough);
    unseen = h.unseen;
  }

  Acceptable-Passes : Acceptable settings item ctx → Passes
  unfolding approx_tokens
  Acceptable-Passes h = record {
    named = is_blank-eq item.external_id ∙ h.named;
    long_enough = omega (arith, h.long_enough, length-strip (codes item.prompt));
    short_enough = omega (arith, h.short_enough);
    unseen = h.unseen;
  }

  -- The pipeline passes exactly the acceptable rows.
  pub validate_item_iff :
      ((validate_item (build_validation_pipeline settings) item ctx).0.ok ≡ true)
      ↔ Acceptable settings item ctx
  validate_item_iff = ((λ h. Passes-Acceptable (accepts h)), (λ a. accepted (Acceptable-Passes a)))

  -- Where duplicates are rejected, the id of a row counts as seen once the pipeline has run on it,
  -- whether the row passed or not.
  seen_after :
      settings.reject_duplicate_ids ≡ true
      → mentions
          (validate_item (build_validation_pipeline settings) item ctx).1.seen_ids
          item.external_id
        ≡ true
  unfolding validate_item build_validation_pipeline check
  seen_after h = ground (arith, eq_iff item.external_id item.external_id)
