-- ===== src/Composition.antt =====
-- app/composition.py: build_services, with app/infrastructure/storage/factory.py and the S3 class of
-- app/infrastructure/storage/s3_storage.py. The repositories, the ingestor, the engine and the job
-- service keep no state of their own but what they are given here.
pub mod Refusals
pub mod Spaces
use batch_processing_system.Common.{
  ℕ, ◌+◌, String, Option, none, some, List, [], ◌∷◌, map, Bool, true, false, ◌&&◌, ◌==◌, leb,
  if◌then◌else◌,
}
use batch_processing_system.Common.Text.{codes}
use batch_processing_system.Domain.{ResultRecord}
use batch_processing_system.Config.{Settings}
use batch_processing_system.Validation.{ValidationRule, build_validation_pipeline}
use batch_processing_system.World.{StorageBackend}
use batch_processing_system.Storage.Directory.{local_storage}
use batch_processing_system.Retry.{Floats, RetryPolicy, statuses_or_default}
use batch_processing_system.Limiter.{Limiter, limiter}

-- `str.lower` of a character. No character beyond ASCII has a lower case in "local" or "s3".
abbrev pub lower_code : ℕ → ℕ
lower_code c = if leb 65 c && leb c 90 then c + 32 else c

abbrev pub same_codes : List ℕ → List ℕ → Bool
same_codes [] [] = true
same_codes [] (y ∷ ys) = false
same_codes (x ∷ xs) [] = false
same_codes (x ∷ xs) (y ∷ ys) = (x == y) && same_codes xs ys

-- `value.lower() == word`
unfoldable pub lower_is : String → String → Bool
lower_is value word = same_codes (map lower_code (codes value)) (codes word)

-- S3SpacesStorage: both methods raise NotImplementedError.
abbrev pub s3_storage : StorageBackend
s3_storage = record {
  Store = Unit;
  write_chunk = λ job id rs s. none;
  iter_results = λ job s. none;
}

-- The services, by what can differ between two of them.
pub record Services (floats : Floats) : Type 1 where
  pub settings : Settings
  pub storage : StorageBackend
  pub retry : RetryPolicy floats
  pub limiter : Limiter
  pub validator : List ValidationRule

module _ (dump : ResultRecord → List ℕ) (load : List ℕ → Option ResultRecord)
    (job_text : ℕ → String) where
  -- `none` is the ValueError.
  unfoldable pub build_storage : Settings → Option StorageBackend
  unfolding lower_is
  build_storage settings =
      if lower_is settings.storage_backend "local"
      then some (local_storage dump load job_text)
      else if lower_is settings.storage_backend "s3"
      then some s3_storage
      else none

  module _ (floats : Floats) (base factor cap : floats.F) where
    abbrev pub retry_policy : Settings → RetryPolicy floats
    retry_policy settings = record {
      base = base;
      factor = factor;
      cap = cap;
      max_attempts = settings.retry_max_attempts;
      statuses = statuses_or_default floats none;
    }

    abbrev pub services : Settings → StorageBackend → Limiter → Services floats
    services settings storage l = record {
      settings = settings;
      storage = storage;
      retry = retry_policy settings;
      limiter = l;
      validator = build_validation_pipeline settings;
    }

    abbrev pub on_limiter : Settings → StorageBackend → Option Limiter → Option (Services floats)
    on_limiter settings storage none = none
    on_limiter settings storage (some l) = some (services settings storage l)

    -- Behind the storage: the client, and the limiter.
    abbrev pub on_storage :
        Bool → Settings → Option StorageBackend → Option Limiter → Option (Services floats)
    on_storage client settings none l = none
    on_storage true settings (some storage) l = on_limiter settings storage l
    on_storage false settings (some storage) l = none

    abbrev pub on_sessions : Bool → Option (Services floats) → Option (Services floats)
    on_sessions true rest = rest
    on_sessions false rest = none

    -- The floats of the settings are arguments, and so is whether the libraries' constructors return:
    -- `sessions` for create_async_engine in get_sessionmaker, `client` for AsyncOpenAI in
    -- build_inference_client.
    unfoldable pub build_services : (sessions client : Bool) → Settings → Option (Services floats)
    unfolding build_storage limiter
    build_services sessions client settings =
        on_sessions sessions
          (on_storage client settings (build_storage settings) (limiter settings.max_concurrency))
