-- ===== src/Common/Text.antt =====
-- What the program uses of Python's `str`.
use Prim.Native.Char.{code}
use Prim.Native.String.{String, ◌++◌ as concat}
use Prim.Native.Nat.{ℕ, zero, suc, ◌+◌, ◌/◌, ◌%◌}
use mathlib.Core.Path.{◌≡◌, refl}
use mathlib.Core.Bool.{Bool, false, ◌||◌, ◌&&◌}
use mathlib.Core.List.{List, [], ◌∷◌, reverse}
use batch_processing_system.Common.Tests.{◌==◌, if◌then◌else◌, ltb, leb}
use text.Mathlib.Text.{◌==◌ as str_eq}

-- The code points of a text.
abbrev pub codes : String → List ℕ
codes String.[] = []
codes (String.◌∷◌ c s) = code c ∷ codes s

-- `s.rsplit("/", 1)[-1]`: the part behind the last slash, or all of `s`.
pub has_slash : String → Bool
has_slash String.[] = false
has_slash (String.◌∷◌ c s) = code c == b'/' || has_slash s

pub after_last_slash : String → String
unfolding has_slash
after_last_slash String.[] = String.[]
after_last_slash (String.◌∷◌ c s) =
    let rest = after_last_slash s in
    if has_slash s then rest else if code c == b'/' then s else String.◌∷◌ c s

rsplit_ref : after_last_slash "jobs/7/chunks/c1.jsonl" ≡ "c1.jsonl"
unfolding after_last_slash
rsplit_ref = refl

-- `e in xs`, for a list or a set of texts.
abbrev pub mentions : List String → String → Bool
mentions [] e = false
mentions (x ∷ xs) e = str_eq e x || mentions xs e

infixr 65 ◌<>◌
-- Two texts joined, as in an f-string.
abbrev pub ◌<>◌ : String → String → String
a <> b = concat a b

-- `sep.join(xs)`
pub join : String → List String → String
join sep [] = ""
join sep (x ∷ []) = x
join sep (x ∷ y ∷ xs) = x <> (sep <> join sep (y ∷ xs))

-- `str.isspace` of one code point.
pub is_space : ℕ → Bool
is_space c =
    (leb 9 c && leb c 13)
    || (leb 28 c && leb c 32)
    || c == 133
    || c == 160
    || c == 5760
    || (leb 8192 c && leb c 8202)
    || c == 8232
    || c == 8233
    || c == 8239
    || c == 8287
    || c == 12288

unfoldable pub lstrip : List ℕ → List ℕ
unfolding is_space
lstrip [] = []
lstrip (c ∷ cs) = let rest = lstrip cs in if is_space c then rest else c ∷ cs

-- `str.strip`
unfoldable pub strip : List ℕ → List ℕ
unfolding lstrip
strip cs = reverse (lstrip (reverse (lstrip cs)))

-- The decimal digits of a number, on fuel; `n + 1` rounds are enough for `n`.
unfoldable pub digit : ℕ → String
digit n =
    if n == 0
    then "0"
    else if n == 1
    then "1"
    else if n == 2
    then "2"
    else if n == 3
    then "3"
    else if n == 4
    then "4"
    else if n == 5
    then "5"
    else if n == 6
    then "6"
    else if n == 7
    then "7"
    else if n == 8
    then "8"
    else "9"

unfoldable pub decimal_from : ℕ → ℕ → String
unfolding digit
decimal_from zero n = ""
decimal_from (suc fuel) n =
    let more = decimal_from fuel (n / 10) <> digit (n % 10) in if ltb n 10 then digit n else more

-- `str(n)` of a natural number.
unfoldable pub decimal : ℕ → String
unfolding decimal_from
decimal n = decimal_from (n + 1) n

decimal_1048 : decimal 1048 ≡ "1048"
unfolding decimal
decimal_1048 = refl

strip_spaces : strip (codes "  a b ") ≡ codes "a b"
unfolding strip
strip_spaces = refl
