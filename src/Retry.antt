-- ===== src/Retry.antt =====
-- app/engine/retry.py: RetryPolicy. The floats are a parameter: their type, the operations that the
-- policy uses, and random.uniform over the state of the generator.
use batch_processing_system.Common.{ℕ, Option, none, some, List, [], ◌∷◌, Bool, ◌≡◌, refl, contains}
use batch_processing_system.Inference.{retryable_status}

-- `power` gives `none` where Python raises OverflowError.
pub record Floats : Type 1 where
  pub F : Type 0
  pub zero_float : F
  pub times : F → F → F
  pub power : F → ℕ → Option F
  pub minimum : F → F → F
  pub Generator : Type 0
  pub uniform : F → F → Generator → F × Generator
  pub Le : F → F → Type 0

-- What min and random.uniform do, and that the order is transitive.
pub record FloatLaws (floats : Floats) : Type 0 where
  pub trans : (a b c : floats.F) → floats.Le a b → floats.Le b c → floats.Le a c
  pub min_left : (a b : floats.F) → floats.Le (floats.minimum a b) a
  pub min_right : (a b : floats.F) → floats.Le (floats.minimum a b) b
  pub min_greatest :
      (c a b : floats.F) → floats.Le c a → floats.Le c b → floats.Le c (floats.minimum a b)
  pub in_range :
      (a b : floats.F) (g : floats.Generator)
      → floats.Le a b
      → floats.Le a (floats.uniform a b g).0 × floats.Le (floats.uniform a b g).0 b

module _ (floats : Floats) where
  pub record RetryPolicy : Type 0 where
    pub base : floats.F
    pub factor : floats.F
    pub cap : floats.F
    pub max_attempts : ℕ
    pub statuses : List ℕ

  -- `retryable_status or {…}`: the empty set counts as none.
  abbrev pub statuses_or_default : Option (List ℕ) → List ℕ
  statuses_or_default none = retryable_status
  statuses_or_default (some []) = retryable_status
  statuses_or_default (some (c ∷ cs)) = c ∷ cs

  abbrev pub is_retryable_status : RetryPolicy → ℕ → Bool
  is_retryable_status policy status_code = contains policy.statuses status_code

  abbrev pub drawn :
      RetryPolicy → Option floats.F → floats.Generator → Option (floats.F × floats.Generator)
  drawn policy none g = none
  drawn policy (some p) g =
      let ceiling = floats.minimum policy.cap (floats.times policy.base p) in
      some (floats.uniform floats.zero_float ceiling g)

  unfoldable pub delay_for :
      RetryPolicy → ℕ → floats.Generator → Option (floats.F × floats.Generator)
  delay_for policy attempt g = drawn policy (floats.power policy.factor attempt) g

  module _ (laws : FloatLaws floats) (policy : RetryPolicy) (attempt : ℕ) (g : floats.Generator)
      (p : floats.F) where
    -- Where the power of the factor is a float: a delay is drawn, and it lies between zero and both
    -- bounds, the cap and the base times the power, if these are not negative.
    pub delay_for_bounds :
        floats.power policy.factor attempt ≡ some p
        → floats.Le floats.zero_float policy.cap
        → floats.Le floats.zero_float (floats.times policy.base p)
        → (d : floats.F) × (g' : floats.Generator) × (delay_for policy attempt g ≡ some (d, g'))
          × floats.Le floats.zero_float d
          × floats.Le d policy.cap
          × floats.Le d (floats.times policy.base p)
    unfolding delay_for
    delay_for_bounds e cap_ok base_ok =
        let limit = floats.times policy.base p in
        let ceiling = floats.minimum policy.cap limit in
        let drawn_now = floats.uniform floats.zero_float ceiling g in
        let (low, high) =
          laws.in_range floats.zero_float ceiling g
            (laws.min_greatest floats.zero_float policy.cap limit cap_ok base_ok) in
        (
          drawn_now.0,
          drawn_now.1,
          rw e refl,
          low,
          laws.trans drawn_now.0 ceiling policy.cap high (laws.min_left policy.cap limit),
          laws.trans drawn_now.0 ceiling limit high (laws.min_right policy.cap limit),
        )
