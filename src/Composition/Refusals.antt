-- ===== src/Composition/Refusals.antt =====
-- When the services cannot be built.
use batch_processing_system.Common.{
  ℕ, zero, suc, ◌+◌, String, Option, none, some, List, [], ◌∷◌, map, Bool, true, false, ◌&&◌, ◌==◌,
  leb, ◌≡◌, ◌↔◌, ◌≤◌, ◌<◌, ◌⊎◌, refl, arith, All, Bool-cases, inl, inr,
}
use batch_processing_system.Common.Text.{codes}
use batch_processing_system.Domain.{ResultRecord}
use batch_processing_system.Config.{Settings}
use batch_processing_system.World.{StorageBackend}
use batch_processing_system.Storage.Directory.{local_storage}
use batch_processing_system.Retry.{Floats}
use batch_processing_system.Limiter.{Limiter, limiter}
use batch_processing_system.Composition.{
  lower_code, same_codes, s3_storage, lower_is, build_storage, on_storage, build_services,
}

-- A character that is the letter `c` of a word, or its capital.
abbrev pub LetterOf : ℕ → ℕ → Type 0
LetterOf c x = (x ≡ c) ⊎ ((65 ≤ x) × (x ≤ 90) × (x + 32 ≡ c))

-- A text that is the word, in whatever case of the letters.
abbrev pub Spells : List ℕ → List ℕ → Type 0
Spells [] [] = Unit
Spells [] (x ∷ xs) = ⊥
Spells (c ∷ cs) [] = ⊥
Spells (c ∷ cs) (x ∷ xs) = LetterOf c x × Spells cs xs

-- Neither storage is named.
abbrev pub UnknownBackend : Settings → Type 0
UnknownBackend settings =
    (Spells (codes "local") (codes settings.storage_backend) → ⊥)
    × (Spells (codes "s3") (codes settings.storage_backend) → ⊥)

abbrev NoCapital : ℕ → Type 0
NoCapital c = (c < 65) ⊎ (90 < c)

letter-LetterOf : (c x : ℕ) → (lower_code x == c) ≡ true → LetterOf c x
letter-LetterOf c x h = elim (Bool-cases (leb 65 x && leb x 90)) [
  | inl capital ↦ inr (ground (arith, capital), ground (arith, capital), ground (arith, capital, h))
  | inr other ↦ inl (ground (arith, other, h))
]

LetterOf-letter : (c x : ℕ) → NoCapital c → LetterOf c x → (lower_code x == c) ≡ true
LetterOf-letter c x (inl low) (inl e) = ground (arith, low, e)
LetterOf-letter c x (inr high) (inl e) = ground (arith, high, e)
LetterOf-letter c x plain (inr (a, b, e)) = ground (arith, a, b, e)

same_codes-Spells : (word xs : List ℕ) → same_codes (map lower_code xs) word ≡ true → Spells word xs
same_codes-Spells [] [] h = tt
same_codes-Spells [] (x ∷ xs) h = cc
same_codes-Spells (c ∷ cs) [] h = cc
same_codes-Spells (c ∷ cs) (x ∷ xs) h = elim (Bool-cases (lower_code x == c)) [
  | inl same ↦ (letter-LetterOf c x same, same_codes-Spells cs xs (rw same at h))
  | inr different ↦ cc (rw different at h)
]

Spells-same_codes :
    (word xs : List ℕ)
    → All NoCapital word
    → Spells word xs
    → same_codes (map lower_code xs) word ≡ true
Spells-same_codes [] [] plain h = refl
Spells-same_codes [] (x ∷ xs) plain h = absurd h
Spells-same_codes (c ∷ cs) [] plain h = absurd h
Spells-same_codes (c ∷ cs) (x ∷ xs) plain h =
    let rest = Spells-same_codes cs xs plain.1 h.1 in rw (LetterOf-letter c x plain.0 h.0) rest

-- The test of the factory, and what it stands for.
module _ (value word : String) (plain : All NoCapital (codes word)) where
  lower_is-Spells : lower_is value word ≡ true → Spells (codes word) (codes value)
  unfolding lower_is
  lower_is-Spells h = same_codes-Spells (codes word) (codes value) h

  not_lower_is-Spells : lower_is value word ≡ false → Spells (codes word) (codes value) → ⊥
  unfolding lower_is
  not_lower_is-Spells h s = let same = Spells-same_codes (codes word) (codes value) plain s in cc

local_plain : All NoCapital (codes "local")
local_plain = (
  inr (omega arith),
  (inr (omega arith), (inr (omega arith), (inr (omega arith), (inr (omega arith), tt)))),
)

s3_plain : All NoCapital (codes "s3")
s3_plain = (inr (omega arith), (inl (omega arith), tt))

limiter_cases :
    (n : ℕ) → ((n < 1) × (limiter n ≡ none)) ⊎ ((l : Limiter) × (0 < n) × (limiter n ≡ some l))
unfolding limiter
limiter_cases zero = inl (omega arith, refl)
limiter_cases (suc n) =
    inr (record { free = suc n; running = []; waiting = [] }, omega arith, ground arith)

module _ (dump : ResultRecord → List ℕ) (load : List ℕ → Option ResultRecord)
    (job_text : ℕ → String) (floats : Floats) (base factor cap : floats.F) where
  behind_storage :
      (settings : Settings) (storage : StorageBackend) (client : Bool)
      → (UnknownBackend settings → ⊥)
      → (on_storage dump load job_text floats base factor cap client settings
            (some storage)
            (limiter settings.max_concurrency)
          ≡ none)
        ↔ ((true ≡ false)
            ⊎ (UnknownBackend settings ⊎ ((client ≡ false) ⊎ (settings.max_concurrency < 1))))
  behind_storage settings storage false known = ((λ _. inr (inr (inl refl))), (λ _. refl))
  behind_storage settings storage true known = elim (limiter_cases settings.max_concurrency) [
    | inl (few, f) ↦ ((λ _. inr (inr (inr few))), (λ _. rw f refl))
    | inr (l, enough, f) ↦ (
      (λ h. cc (rw f at h)),
      (λ h. elim h [
        | inl c ↦ cc
        | inr (inl u) ↦ absurd (known u)
        | inr (inr (inl c)) ↦ cc
        | inr (inr (inr few)) ↦ absurd (omega (arith, few, enough))
      ]),
    )
  ]

  storage_cases :
      (settings : Settings)
      → (UnknownBackend settings × (build_storage dump load job_text settings ≡ none))
        ⊎ ((storage : StorageBackend) × (build_storage dump load job_text settings ≡ some storage)
            × (UnknownBackend settings → ⊥))
  unfolding build_storage
  storage_cases settings =
      let value = settings.storage_backend in
      elim (Bool-cases (lower_is value "local")) [
        | inl local ↦ inr (
          local_storage dump load job_text,
          rw local refl,
          (λ u. u.0 (lower_is-Spells value "local" local_plain local)),
        )
        | inr other ↦ elim (Bool-cases (lower_is value "s3")) [
          | inl s3 ↦
              inr (
                s3_storage,
                rw (other, s3) refl,
                (λ u. u.1 (lower_is-Spells value "s3" s3_plain s3)),
              )
          | inr unknown ↦ inl (
            (
              not_lower_is-Spells value "local" local_plain other,
              not_lower_is-Spells value "s3" s3_plain unknown,
            ),
            rw (other, unknown) refl,
          )
        ]
      ]

  -- The services cannot be built exactly where the database's or the client's library refuses, where the
  -- settings name neither `local` nor `s3` as the storage, in whatever case of the letters, or where they
  -- allow no call at a time.
  pub build_services_raises :
      (sessions client : Bool) (settings : Settings)
      → (build_services dump load job_text floats base factor cap sessions client settings ≡ none)
        ↔ ((sessions ≡ false)
            ⊎ (UnknownBackend settings ⊎ ((client ≡ false) ⊎ (settings.max_concurrency < 1))))
  unfolding build_services
  build_services_raises false client settings = ((λ _. inl refl), (λ _. refl))
  build_services_raises true client settings = elim (storage_cases settings) [
    | inl (unknown, e) ↦ ((λ _. inr (inl unknown)), (λ _. rw e refl))
    | inr (storage, e, known) ↦ rw e (behind_storage settings storage client known)
  ]
