-- ===== src/Access/Bearer.antt =====
-- Which headers RequireAuth accepts.
use ticket_master.Prelude.{
  ℕ, ◌≡◌, ◌↔◌, refl, sym, ap, ◌∙◌, String, true, false, List, [], ◌∷◌, ◌==◌, arith, str_eq, eq_iff,
  Bool-cases, ==_iff, inl, inr,
}
use Prim.Native.Char.{Char, code}
use Prim.Native.String.{[] as nil, ◌∷◌ as cons}
use text.Mathlib.TextEquality.{Char-path}
use text.Mathlib.TextLemmas.{cons-ne-nil}
use ticket_master.Jwt.{Crypto, Claims, Validated, valid, invalid, validate_token}
use ticket_master.Access.{put_front, split, goes_on, by_token, by_parts, require_auth}

abbrev append : String → String → String
append nil t = t
append (cons c s) t = cons c (append s t)

-- The parts of a text with spaces between them again.
abbrev join : List String → String
join [] = nil
join (s ∷ []) = s
join (s ∷ t ∷ rest) = append s (cons " " (join (t ∷ rest)))

-- The text of a header that carries a token.
abbrev pub bearer : String → String
bearer token = append "Bearer " token

-- A text without spaces.
abbrev pub IsSpaceless : String → Type 0
IsSpaceless s = split s ≡ s ∷ []

space : (c : Char) → (code c == 32) ≡ true → c ≡ " "
space c h = Char-path c " " ((==_iff (code c) 32).0 h)

join-put_front : (c : Char) (ss : List String) → join (put_front c ss) ≡ cons c (join ss)
join-put_front c [] = refl
join-put_front c (s ∷ []) = refl
join-put_front c (s ∷ t ∷ rest) = refl

split_parts : (s : String) → (t : String) × (ts : List String) × (split s ≡ t ∷ ts)
split_parts nil = (nil, [], refl)
split_parts (cons c s) =
    let (t, ts, e) = split_parts s in
    elim (Bool-cases (code c == 32)) [
      | inl blank ↦ (nil, split s, rw blank refl)
      | inr other ↦ (cons c t, ts, rw (other, e) refl)
    ]

join-blank : (s : String) → join (nil ∷ split s) ≡ cons " " (join (split s))
join-blank s = let (t, ts, e) = split_parts s in rw e refl

split-bearer : (token : String) → split (bearer token) ≡ "Bearer" ∷ split token
split-bearer token = refl

join-split : (s : String) → join (split s) ≡ s
join-split nil = refl
join-split (cons c s) = elim (Bool-cases (code c == 32)) [
  | inl blank ↦ rw (blank, space c blank, join-blank s, join-split s) refl
  | inr other ↦ rw (other, join-put_front c (split s), join-split s) refl
]

bearer_has_text : (token : String) → str_eq (bearer token) "" ≡ false
bearer_has_text token = elim (Bool-cases (str_eq (bearer token) "")) [
  | inl same ↦ absurd (cons-ne-nil "B" _ ((eq_iff (bearer token) "").0 same))
  | inr differ ↦ differ
]

by_token_valid : (v : Validated) (claims : Claims) → by_token v ≡ goes_on claims → v ≡ valid claims
by_token_valid (valid claims') claims e = ground arith
by_token_valid (invalid why) claims e = ground arith

cons_tail : {s t : String} {ss ts : List String} → s ∷ ss ≡ t ∷ ts → ss ≡ ts
cons_tail e = ground arith

module _ (c : Crypto) (secret : String) (now : ℕ) where
  -- The two parts of a header that is accepted.
  by_parts_accepts :
      (parts : List String) (claims : Claims)
      → by_parts c secret now parts ≡ goes_on claims
      → (token : String) × (parts ≡ "Bearer" ∷ token ∷ [])
        × (validate_token c now token secret ≡ valid claims)
  by_parts_accepts [] claims e = ground arith
  by_parts_accepts (scheme ∷ []) claims e = ground arith
  by_parts_accepts (scheme ∷ token ∷ []) claims e = elim (Bool-cases (str_eq scheme "Bearer")) [
    | inl same ↦ (
      token,
      ap (λ s. s ∷ token ∷ []) ((eq_iff scheme "Bearer").0 same),
      by_token_valid (validate_token c now token secret) claims (ground arith),
    )
    | inr other ↦ ground arith
  ]
  by_parts_accepts (scheme ∷ token ∷ more ∷ rest) claims e = ground arith

  accepts :
      (header : String) (claims : Claims)
      → by_parts c secret now (split header) ≡ goes_on claims
      → (token : String) × (header ≡ bearer token)
        × IsSpaceless token
        × (validate_token c now token secret ≡ valid claims)
  accepts header claims e =
      let (token, parts, v) = by_parts_accepts (split header) claims e in
      let whole = sym (join-split header) ∙ ap join parts in
      (token, whole, cons_tail (sym (ap split whole) ∙ parts), v)

  -- A request goes on with some claims exactly if its header is "Bearer", one space and a token without
  -- spaces that is valid with those claims.
  pub require_auth_iff :
      (header : String) (claims : Claims)
      → (require_auth c secret now header ≡ goes_on claims) ↔ (
          (token : String) × (header ≡ bearer token)
          × IsSpaceless token
          × (validate_token c now token secret ≡ valid claims))
  unfolding require_auth
  require_auth_iff header claims = (
    λ e. accepts header claims (ground arith),
    λ (token, whole, spaceless, v). rw (whole, bearer_has_text token, spaceless, v) refl,
  )
