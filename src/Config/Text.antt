-- ===== src/Config/Text.antt =====
-- What internal/config uses of the packages strings and strconv. The case maps of Unicode are a
-- parameter.
use Prim.Native.Char.{Char, code}
use Prim.Native.Nat.{ℕ, zero, suc, ◌+◌, ◌-◌, ◌*◌}
use Prim.Native.String.{String, [], ◌∷◌}
use mathlib.Core.List.{List}
use ticket_master.Prelude.{
  Bool, true, false, ◌&&◌, ◌||◌, Option, none, some, ◌==◌, leb, if◌then◌else◌,
}
use ticket_master.Service.Purchase.{is_space}

-- `negsuc n` is -(n + 1).
pub data ℤ : Type 0 where
  pos : ℕ → ℤ
  negsuc : ℕ → ℤ

-- strings.ToUpper, strings.ToLower, and the host of a URL that url.Parse reads.
pub record Letters : Type 0 where
  pub to_upper : String → String
  pub to_lower : String → String
  pub url_host : String → Option String

abbrev pub is_empty : String → Bool
is_empty [] = true
is_empty (c ∷ s) = false

abbrev pub trim_left : String → String
trim_left [] = []
trim_left (c ∷ s) = let rest = trim_left s in if is_space (code c) then rest else c ∷ s

-- A character before a text whose end is trimmed.
abbrev pub keep_before : Char → String → String
keep_before c s = if is_empty s && is_space (code c) then [] else c ∷ s

abbrev pub trim_right : String → String
trim_right [] = []
trim_right (c ∷ s) = keep_before c (trim_right s)

-- strings.TrimSpace
abbrev pub trim_space : String → String
trim_space s = trim_right (trim_left s)

abbrev pub push_char : Char → List String → List String
push_char c List.[] = List.◌∷◌ (c ∷ []) List.[]
push_char c (List.◌∷◌ w ws) = List.◌∷◌ (c ∷ w) ws

-- strings.Split(s, ",")
unfoldable pub split_commas : String → List String
split_commas [] = List.◌∷◌ [] List.[]
split_commas (c ∷ s) =
    let rest = split_commas s in if code c == b',' then List.◌∷◌ [] rest else push_char c rest

abbrev pub starts_with_scheme : String → Bool
starts_with_scheme (a ∷ b ∷ c ∷ s) = code a == b':' && code b == b'/' && code c == b'/'
starts_with_scheme _ = false

-- strings.Contains(s, "://")
unfoldable pub has_scheme : String → Bool
has_scheme [] = false
has_scheme (c ∷ s) = starts_with_scheme (c ∷ s) || has_scheme s

-- strings.TrimPrefix(s, "//")
unfoldable pub trim_slashes : String → String
trim_slashes (a ∷ b ∷ s) = if code a == b'/' && code b == b'/' then s else a ∷ b ∷ s
trim_slashes s = s

abbrev pub is_digit : ℕ → Bool
is_digit c = leb b'0' c && leb c b'9'

-- The decimal number that a text of digits, read after others, stands for.
unfoldable pub digits : ℕ → String → Option ℕ
digits n [] = some n
digits n (c ∷ s) =
    let rest = digits (n * 10 + (code c - 48)) s in if is_digit (code c) then rest else none

abbrev pub number : String → Option ℕ
number [] = none
number (c ∷ s) = digits 0 (c ∷ s)

-- The largest int of 64 bits.
abbrev pub max_int : ℕ
max_int = 9_223_372_036_854_775_807

abbrev pub positive : Option ℕ → Option ℤ
positive none = none
positive (some n) = if leb n max_int then some (pos n) else none

abbrev pub negated : ℕ → ℤ
negated zero = pos 0
negated (suc n) = negsuc n

abbrev pub negative : Option ℕ → Option ℤ
negative none = none
negative (some n) = if leb n (max_int + 1) then some (negated n) else none

-- strconv.Atoi, and strconv.ParseInt in base 10 with 64 bits; none is an error.
unfoldable pub atoi : String → Option ℤ
atoi [] = none
atoi (c ∷ s) =
    if code c == b'-'
    then negative (number s)
    else if code c == b'+'
    then positive (number s)
    else positive (number (c ∷ s))
