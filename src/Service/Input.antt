-- ===== src/Service/Input.antt =====
-- What _validate_submit of app/services/job_service.py lets pass, in terms of the file and the model.
use batch_processing_system.Common.{
  ℕ, ◌≤◌, String, Option, none, some, List, [], ◌∷◌, ◌++◌, true, take, ◌==◌, ◌∙◌, ◌≡◌, ◌≢◌, ◌⊎◌,
  refl, sym, ap, arith, str_eq, eq_iff, All, Bool-cases, if_ind, inl, inr,
}
use batch_processing_system.Domain.{SubmitJobRequest}
use batch_processing_system.Config.{Settings}
use batch_processing_system.Service.{
  InputFile, missing, directory, unreadable, content, is_ascii_space, lstrip_bytes, starts_array,
  file_errors, model_of, validate_submit,
}

abbrev pub AsciiSpace : ℕ → Type 0
AsciiSpace c = ((9 ≤ c) × (c ≤ 13)) ⊎ (c ≡ 32)

-- Behind white space, the first 64 bytes have an opening bracket.
abbrev pub OpensArray : List ℕ → Type 0
OpensArray bytes =
    (spaces : List ℕ) × (rest : List ℕ) × All AsciiSpace spaces
    × (take 64 bytes ≡ spaces ++ b'[' ∷ rest)

-- A file that is there, can be read and opens an array.
abbrev pub Readable : InputFile → Type 0
Readable (content bytes) = OpensArray bytes
Readable _ = ⊥

-- The model of a job: the one that the request names, or that of the settings where it names none.
abbrev pub ModelIs : Settings → SubmitJobRequest → String → Type 0
ModelIs settings req model =
    ((req.model ≡ some model) × (model ≢ ""))
    ⊎ (((req.model ≡ none) ⊎ (req.model ≡ some "")) × (model ≡ settings.llm_model))

abbrev pub Submittable : Settings → SubmitJobRequest → InputFile → String → Type 0
Submittable settings req file model = Readable file × ModelIs settings req model × (model ≢ "")

space-AsciiSpace : (c : ℕ) → is_ascii_space c ≡ true → AsciiSpace c
space-AsciiSpace c h = elim (Bool-cases (c == 32)) [
  | inl blank ↦ inr (ground (arith, blank))
  | inr other ↦ inl (ground (arith, h, other), ground (arith, h, other))
]

AsciiSpace-space : (c : ℕ) → AsciiSpace c → is_ascii_space c ≡ true
AsciiSpace-space c (inl (low, high)) = ground (arith, low, high)
AsciiSpace-space c (inr blank) = ground (arith, blank)

opens :
    (bytes : List ℕ)
    → starts_array (lstrip_bytes bytes) ≡ true
    → (spaces : List ℕ) × (rest : List ℕ) × All AsciiSpace spaces × (bytes ≡ spaces ++ b'[' ∷ rest)
unfolding lstrip_bytes
opens [] h = cc
opens (c ∷ cs) h = elim (Bool-cases (is_ascii_space c)) [
  | inl space ↦
      let (spaces, rest, all, same) = opens cs (rw space at h) in
      (c ∷ spaces, rest, (space-AsciiSpace c space, all), ap (λ l. c ∷ l) same)
  | inr other ↦
      let bracket : c ≡ b'[' = ground (arith, rw other at h) in
      ([], cs, tt, ap (λ x. x ∷ cs) bracket)
]

opens_back :
    (spaces rest : List ℕ)
    → All AsciiSpace spaces
    → starts_array (lstrip_bytes (spaces ++ b'[' ∷ rest)) ≡ true
unfolding lstrip_bytes
opens_back [] rest h = refl
opens_back (c ∷ cs) rest h = let space = AsciiSpace-space c h.0 in rw space (opens_back cs rest h.1)

file_errors-Readable :
    (path : String) (file : InputFile) → file_errors path file ≡ [] → Readable file
unfolding file_errors
file_errors-Readable path missing h = cc
file_errors-Readable path directory h = cc
file_errors-Readable path (unreadable e) h = cc
file_errors-Readable path (content bytes) h =
    elim (Bool-cases (starts_array (lstrip_bytes (take 64 bytes)))) [
      | inl starts ↦ opens (take 64 bytes) starts
      | inr other ↦ cc (rw other at h)
    ]

Readable-file_errors :
    (path : String) (file : InputFile) → Readable file → file_errors path file ≡ []
unfolding file_errors
Readable-file_errors path missing h = absurd h
Readable-file_errors path directory h = absurd h
Readable-file_errors path (unreadable e) h = absurd h
Readable-file_errors path (content bytes) (spaces, rest, all, same) =
    rw (same, opens_back spaces rest all) refl

pub model_of-ModelIs :
    (settings : Settings) (req : SubmitJobRequest)
    → ModelIs settings req (model_of settings req.model)
model_of-ModelIs settings req = by_model req.model refl
  where
    by_model :
        (m : Option String)
        → req.model ≡ m
        → ((req.model ≡ some (model_of settings m)) × (model_of settings m ≢ ""))
          ⊎ (((req.model ≡ none) ⊎ (req.model ≡ some ""))
              × (model_of settings m ≡ settings.llm_model))
    by_model none e = inr (inl e, refl)
    by_model (some m) e = elim (Bool-cases (str_eq m "")) [
      | inl empty ↦
          let same : m ≡ "" = (eq_iff m "").0 empty in inr (inr (e ∙ ap some same), rw empty refl)
      | inr named ↦ rw named (inl (e, (λ c. let again = (eq_iff m "").1 c in cc)))
    ]

-- The model is determined.
ModelIs-model_of :
    (settings : Settings) (req : SubmitJobRequest) (model : String)
    → ModelIs settings req model
    → model_of settings req.model ≡ model
ModelIs-model_of settings req model (inl (e, named)) = rw e (
    if_ind (λ m. m ≡ model) (str_eq model "") settings.llm_model model
      (λ empty. absurd (named ((eq_iff model "").0 empty))) (λ _. refl))
ModelIs-model_of settings req model (inr (inl e, same)) = rw e (sym same)
ModelIs-model_of settings req model (inr (inr e, same)) = rw e (sym same)

both_empty : (xs ys : List String) → xs ++ ys ≡ [] → (xs ≡ []) × (ys ≡ [])
both_empty [] ys h = (refl, h)
both_empty (x ∷ xs) ys h = cc

-- The checks find nothing exactly at a file and a model that will do.
pub passes-Submittable :
    (settings : Settings) (req : SubmitJobRequest) (file : InputFile)
    → validate_submit settings req file ≡ []
    → Submittable settings req file (model_of settings req.model)
unfolding validate_submit
passes-Submittable settings req file h =
    let (no_file, no_model) = both_empty (file_errors req.input_path file) _ h in
    (
      file_errors-Readable req.input_path file no_file,
      model_of-ModelIs settings req,
      (λ e.
          let empty : str_eq (model_of settings req.model) "" ≡ true =
            (eq_iff (model_of settings req.model) "").1 e in
          cc (rw empty at no_model)),
    )

pub Submittable-passes :
    (settings : Settings) (req : SubmitJobRequest) (file : InputFile) (model : String)
    → Submittable settings req file model
    → validate_submit settings req file ≡ []
unfolding validate_submit
Submittable-passes settings req file model (readable, is, named) =
    rw (Readable-file_errors req.input_path file readable, ModelIs-model_of settings req model is)
      (if_ind (λ l. l ≡ []) (str_eq model "") ("no model configured" ∷ []) []
        (λ empty. absurd (named ((eq_iff model "").0 empty))) (λ _. refl))
