-- ===== src/Pool/Rows.antt =====
-- What holds of each row while the workers of a pool stand where they stand, and how one worker's step
-- keeps it.
use batch_processing_system.Common.{
  ℕ, String, some, List, ◌∷◌, Bool, true, false, ◌≡◌, refl, sym, ap, subst, ◌∙◌, arith, eq_iff,
  str_eq, contains, exists_where, Bool-cases, if_ind, inl, inr, if◌then◌else◌,
}
use batch_processing_system.Common.Text.{mentions}
use batch_processing_system.Domain.{ClaimedItem, is_open, is_claimed}
use batch_processing_system.Queue.{PromptRow, claim_row, of_job}
use batch_processing_system.Pool.{
  Phase, asking, selecting, working, raised, Phases, ids_of, move, of_member,
}
use batch_processing_system.Pool.Phases.{
  names_of, abandoned, to_claim, is_stopped, is_raised, move_self, move-other, locks_keep,
}

module _ (job : ℕ) (members : List String) where
  abbrev pub locked : Phases → ℕ → Bool
  locked phase k = exists_where (λ w. contains (ids_of (phase w)) k) members

  abbrev pub NoneRaised : Phases → Type 0
  NoneRaised phase = (w : String) → is_raised (phase w) ≡ false

  -- A CLAIMED row of the job belongs to a worker that has it in hand, or is abandoned; a row with a lock
  -- is an open row of the job; and once a worker has stopped, each row that waits for a claim is locked
  -- by another, as long as no worker has raised.
  pub record RowOk (phase : Phases) (r : PromptRow) : Type 0 where
    pub in_hand :
        of_job job is_claimed r ≡ true
        → abandoned job members r ≡ false
        → (w : String) × (r.worker_id ≡ some w)
          × (mentions (names_of (phase w)) r.external_id ≡ true)
    pub selected :
        (w : String) → contains (ids_of (phase w)) r.id ≡ true → of_job job is_open r ≡ true
    pub left_over :
        NoneRaised phase
        → (w : String) → is_stopped (phase w) ≡ true
        → to_claim job members r ≡ true
        → locked phase r.id ≡ true

  pub RowOk-start :
      (r : PromptRow)
      → (of_job job is_claimed r ≡ true → of_member members r.worker_id ≡ false)
      → RowOk (λ w. asking) r
  RowOk-start r h = record {
    in_hand = λ c known. let stranger = h c in ground (arith, c, known, stranger);
    selected = λ w c. cc;
    left_over = λ n w c. cc;
  }

  -- The columns that decide whether a row is the job's and who has it.
  pub record Same (r q : PromptRow) : Type 0 where
    pub id : q.id ≡ r.id
    pub job_id : q.job_id ≡ r.job_id
    pub external_id : q.external_id ≡ r.external_id
    pub status : q.status ≡ r.status
    pub worker_id : q.worker_id ≡ r.worker_id

  Same-abandoned : (r q : PromptRow) → Same r q → abandoned job members q ≡ abandoned job members r
  Same-abandoned r q same = rw (same.job_id, same.status, same.worker_id) refl

  -- A worker moves on without a change of the row: its names go on, it locks nothing new but what is
  -- open, it lets no lock go, and it does not stop.
  pub record GoesOn (phase : Phases) (w : String) (p : Phase) (r : PromptRow) : Type 0 where
    pub names :
        mentions (names_of (phase w)) r.external_id ≡ true
        → mentions (names_of p) r.external_id ≡ true
    pub locks : contains (ids_of p) r.id ≡ true → of_job job is_open r ≡ true
    pub lets_go : contains (ids_of (phase w)) r.id ≡ false
    pub stops :
        is_stopped p ≡ true
        → NoneRaised phase
        → to_claim job members r ≡ true
        → locked phase r.id ≡ true
    pub calm : is_raised p ≡ false → is_raised (phase w) ≡ false

  pub NoneRaised-back :
      (phase : Phases) (w : String) (p : Phase)
      → (is_raised p ≡ false → is_raised (phase w) ≡ false)
      → NoneRaised (move phase w p)
      → NoneRaised phase
  NoneRaised-back phase w p back h v = elim (Bool-cases (str_eq v w)) [
    | inl same ↦
        let e : v ≡ w = (eq_iff v w).0 same in rw e (back (rw (move_self phase w p) at (h w)))
    | inr different ↦ rw (move-other phase w p v different) at (h v)
  ]

  pub RowOk-move :
      (phase : Phases) (w : String) (p : Phase) (r : PromptRow)
      → GoesOn phase w p r
      → RowOk phase r
      → RowOk (move phase w p) r
  RowOk-move phase w p r g ok = record {
    in_hand = λ c known.
        let (v, owner, named) = ok.in_hand c known in
        elim (Bool-cases (str_eq v w)) [
          | inl same ↦
              let e : v ≡ w = (eq_iff v w).0 same in (v, owner, rw (same) (g.names (rw e at named)))
          | inr different ↦ (v, owner, rw different named)
        ];
    selected = λ v c. elim (Bool-cases (str_eq v w)) [
      | inl same ↦ g.locks (rw same at c)
      | inr different ↦ ok.selected v (rw different at c)
    ];
    left_over = λ n v c pending.
        locks_keep phase w p members r.id g.lets_go (elim (Bool-cases (str_eq v w)) [
          | inl same ↦ g.stops (rw same at c) (NoneRaised-back phase w p g.calm n) pending
          | inr different ↦
              ok.left_over (NoneRaised-back phase w p g.calm n) v (rw different at c) pending
        ]);
  }

  -- A row that keeps those columns, while no worker moves.
  pub RowOk-kept : (phase : Phases) (r q : PromptRow) → Same r q → RowOk phase r → RowOk phase q
  RowOk-kept phase r q same ok = record {
    in_hand = λ c known.
        let (v, owner, named) =
          ok.in_hand (ground (arith, c, same.job_id, same.status))
            (sym (Same-abandoned r q same) ∙ known) in
        (
          v,
          same.worker_id ∙ owner,
          subst (λ x. mentions (names_of (phase v)) x ≡ true) (sym same.external_id) named,
        );
    selected = λ v c.
        let before = ok.selected v (rw same.id at c) in
        ground (arith, before, same.job_id, same.status);
    left_over = λ n v c pending.
        let known = Same-abandoned r q same in
        let before =
          ok.left_over n v c (ground (arith, pending, same.job_id, same.status, known)) in
        rw same.id before;
  }

  -- An exception: the names go on, and the locks are released.
  pub RowOk-raises :
      (phase : Phases) (w : String) (r : PromptRow)
      → RowOk phase r
      → RowOk (move phase w (raised (phase w))) r
  RowOk-raises phase w r ok = record {
    in_hand = λ c known.
        let (v, owner, named) = ok.in_hand c known in
        elim (Bool-cases (str_eq v w)) [
          | inl same ↦ let e : v ≡ w = (eq_iff v w).0 same in (v, owner, rw same (rw e at named))
          | inr different ↦ (v, owner, rw different named)
        ];
    selected = λ v c. elim (Bool-cases (str_eq v w)) [
      | inl same ↦ cc (rw same at c)
      | inr different ↦ ok.selected v (rw different at c)
    ];
    left_over = λ n v c pending. cc (rw (move_self phase w (raised (phase w))) at (n w));
  }

  -- The UPDATE of a claim: a row that it writes is in the worker's hand, and any other was not its.
  pub RowOk-claims :
      (phase : Phases) (w : String) (now at lease : ℕ) (ids : List ℕ) (i : ClaimedItem)
      (items : List ClaimedItem) (r : PromptRow)
      → mentions members w ≡ true
      → phase w ≡ selecting now ids
      → (contains ids r.id ≡ true → mentions (names_of (working (i ∷ items))) r.external_id ≡ true)
      → RowOk phase r
      → RowOk
          (move phase w (working (i ∷ items)))
          (if contains ids r.id then claim_row at w lease r else r)
  RowOk-claims phase w now at lease ids i items r member stands named ok =
      let p = working (i ∷ items) in
      let same_ids : ids_of (phase w) ≡ ids = ap ids_of stands in
      let back = λ (n : NoneRaised (move phase w p)).
        NoneRaised-back phase w p (λ c. ap is_raised stands) n in
      let others = λ (v : String) (c : contains (ids_of (move phase w p v)) r.id ≡ true).
        let open_before : of_job job is_open r ≡ true = elim (Bool-cases (str_eq v w)) [
          | inl same ↦ cc (rw same at c)
          | inr different ↦ ok.selected v (rw different at c)
        ] in
        open_before in
      if_ind (λ q. RowOk (move phase w p) q) (contains ids r.id) (claim_row at w lease r) r
        (λ hit.
          let was_open = ok.selected w (rw same_ids hit) in
          record {
            in_hand = λ c known. (w, refl, rw (move_self phase w p) (named hit));
            selected = λ v c. ground (arith, was_open);
            left_over = λ n v c pending. ground (arith, member, pending);
          })
        (λ miss. record {
          in_hand = λ c known.
              let (v, owner, in_hand) = ok.in_hand c known in
              elim (Bool-cases (str_eq v w)) [
                | inl same ↦ let e : v ≡ w = (eq_iff v w).0 same in cc (rw (e, stands) at in_hand)
                | inr different ↦ (v, owner, rw different in_hand)
              ];
          selected = others;
          left_over = λ n v c pending. elim (Bool-cases (str_eq v w)) [
            | inl same ↦ cc (rw same at c)
            | inr different ↦
                locks_keep phase w p members r.id (rw same_ids miss)
                  (ok.left_over (back n) v (rw different at c) pending)
          ];
        })
