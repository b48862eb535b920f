-- ===== src/Logging/Payload.antt =====
-- What a line of the JSON log says under a key.
use batch_processing_system.Common.{
  ℕ, String, Option, none, some, List, [], ◌∷◌, ◌++◌, Bool, true, false, ◌||◌, ◌&&◌, not, ◌==◌, ◌≡◌,
  refl, ap, ap₂, ◌∙◌, arith, str_eq, eq_iff, Bool-cases, if_ind, inl, inr, if◌then◌else◌,
}
use batch_processing_system.Common.Text.{codes, mentions}
use batch_processing_system.Inference.{is_prefix}
use batch_processing_system.Logging.{
  Context, Dict, set_key, update, optional, context_fields, LogRecord, is_extra, add_extras,
  base_fields, with_exception, json_payload,
}

-- `payload.get(key)`
pub lookup : String → Dict → Option String
lookup k [] = none
lookup k ((j, v) ∷ d) = if str_eq j k then some v else lookup k d

-- The later of two values, if there is one.
abbrev pub or_else : Option String → Option String → Option String
or_else (some v) w = some v
or_else none w = w

or_else-none : (o : Option String) → o ≡ or_else o none
or_else-none none = refl
or_else-none (some v) = refl

-- The last value that a list of assignments gives a key.
pub last_of : String → Dict → Option String
last_of k [] = none
last_of k ((j, v) ∷ d) = or_else (last_of k d) (if str_eq j k then some v else none)

-- The assignments that the attributes make.
pub extras : List String → Dict → Dict
extras reserved [] = []
extras reserved ((k, v) ∷ d) =
    if is_extra reserved k then (k, v) ∷ extras reserved d else extras reserved d

pub lookup-set_key :
    (k j v : String) (d : Dict)
    → lookup k (set_key j v d) ≡ (if str_eq j k then some v else lookup k d)
unfolding lookup set_key
lookup-set_key k j v [] = refl
lookup-set_key k j v ((i, w) ∷ d) =
    let rest = lookup-set_key k j v d in ground (arith, eq_iff i j, eq_iff j k, eq_iff i k)

lookup-update :
    (k : String) (more d : Dict) → lookup k (update d more) ≡ or_else (last_of k more) (lookup k d)
unfolding update last_of
lookup-update k [] d = refl
lookup-update k ((j, v) ∷ more) d =
    lookup-update k more (set_key j v d)
    ∙ settle (last_of k more) (lookup k (set_key j v d)) (lookup-set_key k j v d)
  where
    settle :
        (o p : Option String)
        → p ≡ (if str_eq j k then some v else lookup k d)
        → or_else o p ≡ or_else (or_else o (if str_eq j k then some v else none)) (lookup k d)
    settle (some w) p e = refl
    settle none p e = elim (Bool-cases (str_eq j k)) [
      | inl same ↦ rw same (rw same at e)
      | inr different ↦ rw different (rw different at e)
    ]

add_extras-eq-update :
    (reserved : List String) (attributes d : Dict)
    → add_extras reserved attributes d ≡ update d (extras reserved attributes)
unfolding add_extras update extras
add_extras-eq-update reserved [] d = refl
add_extras-eq-update reserved ((k, v) ∷ more) d = elim (Bool-cases (is_extra reserved k)) [
  | inl extra ↦ rw extra (add_extras-eq-update reserved more (set_key k v d))
  | inr not_extra ↦ rw not_extra (add_extras-eq-update reserved more d)
]

-- A name that begins with an underscore.
abbrev pub is_private : List ℕ → Bool
is_private [] = false
is_private (c ∷ cs) = c == b'_'

-- The last attribute of that name, if the name is neither reserved nor private.
abbrev pub extra_of : List String → String → Dict → Option String
extra_of reserved k attributes =
    if mentions reserved k || is_private (codes k) then none else last_of k attributes

abbrev pub named : String → String → Option String → Option String
named name k value = if str_eq name k then value else none

-- The correlation id of that name.
abbrev pub correlation : Context → String → Option String
correlation ctx k =
    or_else (or_else (named "worker_id" k ctx.worker_id) (named "job_id" k ctx.job_id))
      (named "request_id" k ctx.request_id)

-- The four fields that each line has.
abbrev pub basic : LogRecord → String → Option String
basic r k =
    if str_eq "ts" k
    then some r.ts
    else if str_eq "level" k
    then some r.level
    else if str_eq "logger" k
    then some r.logger
    else if str_eq "msg" k
    then some r.message
    else none

-- What the payload says under a key, read off the record: the text of the exception under "exception",
-- else the last extra of that name, else the correlation id, else one of the four basic fields.
abbrev pub says : List String → Context → LogRecord → String → Option String
says reserved ctx r k =
    or_else (named "exception" k r.exception)
      (or_else (extra_of reserved k r.attributes) (or_else (correlation ctx k) (basic r k)))

is_extra_lem :
    (reserved : List String) (k : String)
    → is_extra reserved k ≡ not (mentions reserved k || is_private (codes k))
unfolding is_extra is_prefix
is_extra_lem reserved k = by_codes (codes k)
  where
    by_codes :
        (cs : List ℕ)
        → (not (mentions reserved k) && not (is_prefix (codes "_") cs))
          ≡ not (mentions reserved k || is_private cs)
    by_codes [] = ground arith
    by_codes (c ∷ cs) = ground arith

module _ (reserved : List String) (k : String) where
  last_of-extras-none :
      (attributes : Dict)
      → is_extra reserved k ≡ false
      → last_of k (extras reserved attributes) ≡ none
  unfolding last_of extras
  last_of-extras-none [] h = refl
  last_of-extras-none ((j, v) ∷ more) h =
      let rest = last_of-extras-none more h in
      if_ind (λ d. last_of k d ≡ none) (is_extra reserved j) ((j, v) ∷ extras reserved more)
        (extras reserved more)
        (λ extra. elim (Bool-cases (str_eq j k)) [
          | inl same ↦ let e : j ≡ k = (eq_iff j k).0 same in cc (rw e at extra)
          | inr different ↦ rw (rest, different) refl
        ])
        (λ _. rest)

  last_of-extras_all :
      (attributes : Dict)
      → is_extra reserved k ≡ true
      → last_of k (extras reserved attributes) ≡ last_of k attributes
  unfolding last_of extras
  last_of-extras_all [] h = refl
  last_of-extras_all ((j, v) ∷ more) h =
      let rest = last_of-extras_all more h in
      let here = if str_eq j k then some v else none in
      if_ind (λ d. last_of k d ≡ or_else (last_of k more) here) (is_extra reserved j)
        ((j, v) ∷ extras reserved more) (extras reserved more)
        (λ extra. ap (λ o. or_else o here) rest)
        (λ dropped. elim (Bool-cases (str_eq j k)) [
          | inl same ↦ let e : j ≡ k = (eq_iff j k).0 same in cc (rw e at dropped)
          | inr different ↦ rest ∙ rw different (or_else-none (last_of k more))
        ])

  last_of-extras :
      (attributes : Dict) → last_of k (extras reserved attributes) ≡ extra_of reserved k attributes
  last_of-extras attributes =
      let known = is_extra_lem reserved k in
      if_ind (λ o. last_of k (extras reserved attributes) ≡ o)
        (mentions reserved k || is_private (codes k)) none (last_of k attributes)
        (λ hidden. last_of-extras-none attributes (ground (arith, known, hidden)))
        (λ plain. last_of-extras_all attributes (ground (arith, known, plain)))

last_of-optional :
    (k name : String) (o : Option String) (d : Dict)
    → last_of k (optional name o ++ d) ≡ or_else (last_of k d) (named name k o)
unfolding last_of
last_of-optional k name none d =
    if_ind (λ p. last_of k d ≡ or_else (last_of k d) p) (str_eq name k) none none
      (λ _. or_else-none (last_of k d)) (λ _. or_else-none (last_of k d))
last_of-optional k name (some v) d = refl

last_of-one : (k name : String) (o : Option String) → last_of k (optional name o) ≡ named name k o
unfolding last_of
last_of-one k name none = if_ind (λ p. none ≡ p) (str_eq name k) none none (λ _. refl) (λ _. refl)
last_of-one k name (some v) = refl

last_of-context_fields :
    (k : String) (ctx : Context) → last_of k (context_fields ctx) ≡ correlation ctx k
last_of-context_fields k ctx =
    let last = optional "worker_id" ctx.worker_id in
    last_of-optional k "request_id" ctx.request_id (optional "job_id" ctx.job_id ++ last)
    ∙ ap (λ o. or_else o (named "request_id" k ctx.request_id))
        (last_of-optional k "job_id" ctx.job_id last
          ∙ ap (λ o. or_else o (named "job_id" k ctx.job_id))
              (last_of-one k "worker_id" ctx.worker_id))

lookup-base_fields : (k : String) (r : LogRecord) → lookup k (base_fields r) ≡ basic r k
unfolding lookup
lookup-base_fields k r = refl

-- The payload of a line says under each key, in this order of precedence: under "exception" the text of the
-- exception, the last attribute of that name unless it is reserved or begins with an underscore, the
-- correlation id of that name, the time, level, logger or message under "ts", "level", "logger" and
-- "msg"; and it says nothing under any other key.
pub lookup-json_payload :
    (reserved : List String) (ctx : Context) (r : LogRecord) (k : String)
    → lookup k (json_payload reserved ctx r) ≡ says reserved ctx r k
unfolding json_payload
lookup-json_payload reserved ctx r k =
    let fields = update (base_fields r) (context_fields ctx) in
    behind r.exception (add_extras reserved r.attributes fields)
    ∙ ap (or_else (named "exception" k r.exception)) (
        ap (lookup k) (add_extras-eq-update reserved r.attributes fields)
        ∙ lookup-update k (extras reserved r.attributes) fields
        ∙ ap₂ or_else (last_of-extras reserved k r.attributes) (
            lookup-update k (context_fields ctx) (base_fields r)
            ∙ ap₂ or_else (last_of-context_fields k ctx) (lookup-base_fields k r)))
  where
    behind :
        (e : Option String) (d : Dict)
        → lookup k (with_exception e d) ≡ or_else (named "exception" k e) (lookup k d)
    behind none d =
        if_ind (λ p. lookup k d ≡ or_else p (lookup k d)) (str_eq "exception" k) none none
          (λ _. refl) (λ _. refl)
    behind (some text) d =
        lookup-set_key k "exception" text d
        ∙ if_ind (λ o. o ≡ or_else (if str_eq "exception" k then some text else none) (lookup k d))
            (str_eq "exception" k) (some text) (lookup k d) (λ same. rw same refl)
            (λ different. rw different refl)
