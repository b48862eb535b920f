-- ===== src/Pool/Weights.antt =====
-- What a pool has before it, in numbers: how far its workers are, and its PENDING rows.
use native.Mathlib.Nat.{mul-le-mul_left}
use batch_processing_system.Common.{
  ℕ, suc, ◌+◌, ◌*◌, ◌≤◌, ◌<◌, String, List, [], ◌∷◌, map, Bool, true, false, ◌≡◌, arith, eq_iff,
  str_eq, All, length, count_where, exists_where, update_where, Bool-cases, inl, inr,
}
use batch_processing_system.Common.Text.{mentions}
use batch_processing_system.Domain.{ClaimedItem}
use batch_processing_system.Queue.{PromptRow}
use batch_processing_system.Pool.{
  Phase, asking, stopped, selecting, working, storing, completing, raised, Phases, move,
  after_claim,
}

-- How far a worker is from its next look at the queue.
abbrev pub weight : Phase → ℕ
weight asking = 6
weight (selecting now ids) = 5
weight (working items) = 9
weight (storing rs) = 8
weight (completing rs ref) = 7
weight stopped = 0
weight (raised p) = 0

abbrev pub total : Phases → List String → ℕ
total phase [] = 0
total phase (v ∷ vs) = weight (phase v) + total phase vs

module _ (phase : Phases) (w : String) (p : Phase) where
  pub total-le :
      (vs : List String) → weight p ≤ weight (phase w) → total (move phase w p) vs ≤ total phase vs
  total-le [] h = omega arith
  total-le (v ∷ vs) h = elim (Bool-cases (str_eq v w)) [
    | inl same ↦
        let e : v ≡ w = (eq_iff v w).0 same in
        let here_le : weight p ≤ weight (phase v) = rw e h in
        rw same (omega (arith, here_le, total-le vs h))
    | inr different ↦ rw different (omega (arith, total-le vs h))
  ]

  pub total-lt :
      (vs : List String)
      → mentions vs w ≡ true
      → weight p < weight (phase w)
      → total (move phase w p) vs < total phase vs
  total-lt [] m h = cc
  total-lt (v ∷ vs) m h = elim (Bool-cases (str_eq v w)) [
    | inl same ↦
        let e : v ≡ w = (eq_iff v w).0 same in
        let here_lt : weight p < weight (phase v) = rw e h in
        rw same (omega (arith, here_lt, total-le vs (omega (arith, h))))
    | inr different ↦
        let rest : mentions vs w ≡ true = ground (arith, m, different, eq_iff v w, eq_iff w v) in
        rw different (omega (arith, total-lt vs rest h))
  ]

  pub total-up :
      (vs : List String)
      → weight p ≤ weight (phase w) + 4
      → total (move phase w p) vs ≤ total phase vs + 4 * length vs
  total-up [] h = omega arith
  total-up (v ∷ vs) h = elim (Bool-cases (str_eq v w)) [
    | inl same ↦
        let e : v ≡ w = (eq_iff v w).0 same in
        let here_le : weight p ≤ weight (phase v) + 4 = rw e h in
        rw same (omega (arith, here_le, total-up vs h))
    | inr different ↦ rw different (omega (arith, total-up vs h))
  ]

-- Rows that pass a test before and after an UPDATE.
module _ (p : PromptRow → Bool) where
  pub count-map-le :
      (g : PromptRow → PromptRow) (rs : List PromptRow)
      → All (λ r. p (g r) ≡ true → p r ≡ true) rs
      → count_where p (map g rs) ≤ count_where p rs
  count-map-le g [] h = omega arith
  count-map-le g (r ∷ rs) h = let k = h.0 in ground (arith, k, count-map-le g rs h.1)

  module _ (chosen : PromptRow → Bool) (f : PromptRow → PromptRow)
      (fails : (r : PromptRow) → p (f r) ≡ false) where
    pub count-update-le :
        (rs : List PromptRow) → count_where p (update_where chosen f rs) ≤ count_where p rs
    count-update-le [] = omega arith
    count-update-le (r ∷ rs) = ground (arith, fails r, count-update-le rs)

    pub count-update-lt :
        (rs : List PromptRow)
        → All (λ r. chosen r ≡ true → p r ≡ true) rs
        → exists_where chosen rs ≡ true
        → count_where p (update_where chosen f rs) < count_where p rs
    count-update-lt [] h found = cc
    count-update-lt (r ∷ rs) h found = elim (Bool-cases (chosen r)) [
      | inl hit ↦ let passes = h.0 hit in ground (arith, hit, passes, fails r, count-update-le rs)
      | inr miss ↦
          let rest = count-update-lt rs h.1 (ground (arith, found, miss)) in
          ground (arith, miss, rest)
    ]

pub after_claim-weight : (items : List ClaimedItem) → weight (after_claim items) ≤ 9
after_claim-weight [] = omega arith
after_claim-weight (i ∷ items) = omega arith

pub member-some : (vs : List String) (w : String) → mentions vs w ≡ true → 1 ≤ length vs
member-some [] w m = cc
member-some (v ∷ vs) w m = omega arith

pub total-start : (vs : List String) → total (λ w. asking) vs ≡ 6 * length vs
total-start [] = omega arith
total-start (v ∷ vs) = omega (arith, total-start vs)

-- One row fewer pays for a round of every member.
pub pays : (n a b : ℕ) → a < b → n * a + n ≤ n * b
pays n a b h =
    let at_least : suc a ≤ b = omega (arith, h) in
    let more : n * suc a ≤ n * b = mul-le-mul_left n at_least in omega (arith, more)
