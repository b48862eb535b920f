-- ===== src/Validation/Trimmed.antt =====
-- The characters that `str.strip` leaves of a text, counted from the first that is no white space to the
-- last.
use mathlib.Core.List.{reverse, reverse-cons}
use batch_processing_system.Common.{
  ℕ, suc, ◌+◌, List, [], ◌∷◌, ◌++◌, Bool, true, false, ◌&&◌, ◌≡◌, refl, ap, ◌∙◌, arith, length,
  length-snoc, Bool-cases, inl, inr, if◌then◌else◌,
}
use batch_processing_system.Common.Text.{is_space, lstrip, strip}

pub all_space : List ℕ → Bool
all_space [] = true
all_space (c ∷ cs) = is_space c && all_space cs

-- Up to the last character that is no white space.
pub span : List ℕ → ℕ
unfolding all_space
span [] = 0
span (c ∷ cs) = let rest = span cs in if all_space (c ∷ cs) then 0 else suc rest

-- From the first one on.
pub trimmed : List ℕ → ℕ
unfolding span
trimmed [] = 0
trimmed (c ∷ cs) = let rest = trimmed cs in if is_space c then rest else span (c ∷ cs)

length-reverse : (xs : List ℕ) → length (reverse xs) ≡ length xs
length-reverse [] = refl
length-reverse (x ∷ xs) =
    ap length (reverse-cons x xs) ∙ length-snoc (reverse xs) x ∙ omega (arith, length-reverse xs)

all_space-snoc : (xs : List ℕ) (c : ℕ) → all_space (xs ++ c ∷ []) ≡ (is_space c && all_space xs)
unfolding all_space
all_space-snoc [] c = refl
all_space-snoc (x ∷ xs) c = let rest = all_space-snoc xs c in ground (arith, rest)

all_space-reverse : (xs : List ℕ) → all_space (reverse xs) ≡ all_space xs
unfolding all_space
all_space-reverse [] = refl
all_space-reverse (x ∷ xs) =
    ap all_space (reverse-cons x xs)
    ∙ all_space-snoc (reverse xs) x
    ∙ ap (λ b. is_space x && b) (all_space-reverse xs)

length-lstrip-snoc :
    (xs : List ℕ) (c : ℕ)
    → length (lstrip (xs ++ c ∷ []))
      ≡ (if all_space xs then (if is_space c then 0 else 1) else length (lstrip xs) + 1)
unfolding lstrip all_space
length-lstrip-snoc [] c = ground arith
length-lstrip-snoc (x ∷ xs) c =
    let rest = length-lstrip-snoc xs c in
    elim (Bool-cases (is_space x)) [
      | inl space ↦ rw (space, rest) refl
      | inr other ↦ rw other (omega (arith, length-snoc xs c))
    ]

span_spaces : (xs : List ℕ) → all_space xs ≡ true → span xs ≡ 0
unfolding span
span_spaces [] h = refl
span_spaces (x ∷ xs) h = rw h refl

length-lstrip-reverse : (xs : List ℕ) → length (lstrip (reverse xs)) ≡ span xs
unfolding span all_space lstrip
length-lstrip-reverse [] = refl
length-lstrip-reverse (x ∷ xs) =
    let rest = length-lstrip-reverse xs in
    let same = all_space-reverse xs in
    ap (λ l. length (lstrip l)) (reverse-cons x xs)
    ∙ length-lstrip-snoc (reverse xs) x
    ∙ elim (Bool-cases (all_space xs)) [
      | inl spaces ↦
          let nothing = span_spaces xs spaces in rw (same, spaces, nothing) (ground arith)
      | inr some_left ↦ rw (same, some_left, rest) (ground arith)
    ]

span-lstrip : (xs : List ℕ) → span (lstrip xs) ≡ trimmed xs
unfolding lstrip trimmed
span-lstrip [] = refl
span-lstrip (x ∷ xs) = either (is_space x) (lstrip xs) (x ∷ xs) (trimmed xs) (span-lstrip xs)
  where
    either :
        (b : Bool) (left right : List ℕ) (n : ℕ)
        → span left ≡ n
        → span (if b then left else right) ≡ (if b then n else span right)
    either true left right n e = e
    either false left right n e = refl

pub length-strip : (cs : List ℕ) → length (strip cs) ≡ trimmed cs
unfolding strip
length-strip cs =
    length-reverse (lstrip (reverse (lstrip cs)))
    ∙ length-lstrip-reverse (lstrip cs)
    ∙ span-lstrip cs

-- Nothing is left exactly of white space.
pub trimmed_none : (cs : List ℕ) → trimmed cs ≡ 0 → all_space cs ≡ true
unfolding trimmed span all_space
trimmed_none [] h = refl
trimmed_none (c ∷ cs) h = elim (Bool-cases (is_space c)) [
  | inl space ↦ let rest = trimmed_none cs (rw space at h) in rw (space, rest) refl
  | inr other ↦ absurd (omega (arith, rw other at h))
]

pub trimmed_some : (cs : List ℕ) (n : ℕ) → trimmed cs ≡ suc n → all_space cs ≡ false
unfolding trimmed all_space
trimmed_some [] n h = absurd (omega (arith, h))
trimmed_some (c ∷ cs) n h = elim (Bool-cases (is_space c)) [
  | inl space ↦ let rest = trimmed_some cs n (rw space at h) in rw (space, rest) refl
  | inr other ↦ rw other refl
]
