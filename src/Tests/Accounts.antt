-- ===== src/Tests/Accounts.antt =====
-- Ann registers, logs in and calls a handler with her token. The libraries are stood in for by functions
-- that keep what they document: a hash is the password, and a token spells the numbers of its claims.
use ticket_master.Prelude.{
  ℕ, zero, suc, ◌+◌, ◌<◌, ◌≡◌, ◌↔◌, refl, String, Bool, true, false, ◌&&◌, Option, none, some, List,
  [], ◌∷◌, ◌==◌, arith, ltb, if◌then◌else◌, str_eq, eq_iff, indicator,
}
use Prim.Native.Char.{Char, code}
use Prim.Native.String.{[] as nil, ◌∷◌ as cons}
use ticket_master.Exec.{
  ◌>>=◌, handle, pure, raise, catch, time_now, uuid_new, statement, lone, replica_select, answers,
}
use ticket_master.Exec.Returns.{Returns}
use ticket_master.Jwt.{
  Crypto, Claims, new_claims, hash_password, generate_token, Parsed, parsed, token_expired, refused,
  valid, validate_token,
}
use ticket_master.Access.{goes_on, require_auth}
use ticket_master.Access.Bearer.{bearer, IsSpaceless, require_auth_iff}
use ticket_master.Auth.{JwtConfig, RegisterRequest, register, register_new, respond, login}
use ticket_master.Repository.Users.{create_user, insert_user, find_user_by_email}
use ticket_master.Auth.Login.{IsSound, Works, Opens, register_then_login}
use ticket_master.Model.{User, role_user}
use ticket_master.Session.{Call, sign_up, run_calls, run_call}
use ticket_master.Session.Safety.{no_shared_email}
use ticket_master.Routes.{post_reserve, admit}
use ticket_master.Routes.Authorised.{somebody, Meets, admit-Meets}
use ticket_master.Tests.Fixtures.{
  calm, calm-IsLawful, calm-IsReliable, calm-IsIdle, at_open, opened, plain_service,
}

abbrev ann : RegisterRequest
ann = record { email = "ann@example.com"; password = "secret"; full_name = "Ann" }

abbrev config : JwtConfig
config = record { secret = "key"; expiry_hours = 24 }

abbrev row : ℕ → Char → String → String
row zero c out = out
row (suc n) c out = cons c (row n c out)

abbrev tally : ℕ → String → ℕ
tally k nil = 0
tally k (cons c s) = indicator (code c == k) + tally k s

tally-row :
    (k n : ℕ) (c : Char) (out : String)
    → tally k (row n c out) ≡ (if code c == k then n else 0) + tally k out
tally-row k zero c out = ground arith
tally-row k (suc n) c out = ground (arith, tally-row k n c out)

row-IsSpaceless :
    (n : ℕ) (c : Char) (out : String)
    → code c == 32 ≡ false
    → IsSpaceless out
    → IsSpaceless (row n c out)
row-IsSpaceless zero c out e h = h
row-IsSpaceless (suc n) c out e h = rw (e, row-IsSpaceless n c out e h) refl

abbrev encode : Claims → String
encode k = row k.user_id "a" (row k.expires_at "b" (row k.issued_at "c" (row k.not_before "d" "")))

abbrev decode : String → Claims
decode t = record {
  user_id = tally 97 t;
  email = "ann@example.com";
  role = "user";
  expires_at = tally 98 t;
  issued_at = tally 99 t;
  not_before = tally 100 t;
  issuer = "event-ticketing-system";
}

-- The claims that the stand-in signs.
abbrev of_ann : Claims → String → Bool
of_ann k secret =
    str_eq k.email "ann@example.com"
    && str_eq k.role "user"
    && str_eq k.issuer "event-ticketing-system"
    && str_eq secret "key"

abbrev sign_with : Claims → String → Option String
sign_with k secret = if of_ann k secret then some (encode k) else none

abbrev parse_by : ℕ → String → Option String → Parsed
parse_by now t none = refused
parse_by now t (some secret) =
    if ltb now (tally 98 t) then parsed (decode t) true else token_expired

abbrev plain_crypto : Crypto
plain_crypto = record {
  hash = λ n password. some password;
  compare = λ hashed password. str_eq hashed password;
  sign = sign_with;
  parse = λ now t key. parse_by now t (key true);
}

tally-encode :
    (j : ℕ) (k : Claims)
    → tally j (encode k)
      ≡ (if 97 == j then k.user_id else 0)
        + ((if 98 == j then k.expires_at else 0)
            + ((if 99 == j then k.issued_at else 0) + (if 100 == j then k.not_before else 0)))
tally-encode j k =
    let d = row k.not_before "d" "" in
    let c = row k.issued_at "c" d in
    let b = row k.expires_at "b" c in
    ground (
      arith,
      tally-row j k.user_id "a" b,
      tally-row j k.expires_at "b" c,
      tally-row j k.issued_at "c" d,
      tally-row j k.not_before "d" "",
    )

encode-IsSpaceless : (k : Claims) → IsSpaceless (encode k)
encode-IsSpaceless k = row-IsSpaceless k.user_id "a" _ refl (
    row-IsSpaceless k.expires_at "b" _ refl
      (row-IsSpaceless k.issued_at "c" _ refl (row-IsSpaceless k.not_before "d" _ refl refl)))

decode-encode : (k : Claims) (secret : String) → of_ann k secret ≡ true → decode (encode k) ≡ k
decode-encode k secret h =
    rw
      (
        tally-encode 97 k,
        tally-encode 98 k,
        tally-encode 99 k,
        tally-encode 100 k,
        (eq_iff k.email "ann@example.com").0 (ground (arith, h)),
        (eq_iff k.role "user").0 (ground (arith, h)),
        (eq_iff k.issuer "event-ticketing-system").0 (ground (arith, h)),
      )
      (ground arith)

expires-encode : (k : Claims) → tally 98 (encode k) ≡ k.expires_at
expires-encode k = ground (arith, tally-encode 98 k)

before_end : (now end : ℕ) → now < end → ltb now end ≡ true
before_end now end h = ground arith

signs_ann :
    (k : Claims) (secret t : String)
    → sign_with k secret ≡ some t
    → (of_ann k secret ≡ true) × (t ≡ encode k)
signs_ann k secret t e = ground arith

plain_crypto-IsSound : IsSound plain_crypto
plain_crypto-IsSound = record {
  matches = λ n p h e. (eq_iff h p).1 (ground arith);
  parses = λ k secret t now key e g l m.
      rw
        (
          g,
          (signs_ann k secret t e).1,
          decode-encode k secret (signs_ann k secret t e).0,
          expires-encode k,
          before_end now k.expires_at m,
        )
        refl;
  spaceless = λ k secret t e. rw ((signs_ann k secret t e).1) (encode-IsSpaceless k);
}

plain_crypto-Works : Works plain_crypto config ann.email ann.password
plain_crypto-Works = record {
  hashed = λ n. ("secret", refl);
  signed = λ u e i n. (encode (new_claims u ann.email "user" e i n), refl);
}

register_then_login_example : Returns (register plain_crypto config ann calm at_open) (λ r w.
    (r.user.email ≡ "ann@example.com")
    × Returns
        (login plain_crypto config "ann@example.com" "secret" calm w)
        (λ s _. Opens plain_crypto config calm r.user s))
register_then_login_example =
    register_then_login plain_crypto config calm at_open ann plain_crypto-IsSound plain_crypto-Works
      calm-IsReliable calm-IsIdle (λ n. ground arith) refl

abbrev claims_of_ann : Claims
claims_of_ann = new_claims 4 "ann@example.com" "user" 3_000_000_000 0 0

require_auth_iff_example :
    (require_auth plain_crypto "key" 5 (bearer (encode claims_of_ann)) ≡ goes_on claims_of_ann) ↔ (
      (token : String) × (bearer (encode claims_of_ann) ≡ bearer token)
      × IsSpaceless token
      × (validate_token plain_crypto 5 token "key" ≡ valid claims_of_ann))
require_auth_iff_example =
    require_auth_iff plain_crypto "key" 5 (bearer (encode claims_of_ann)) claims_of_ann

-- Ann registers twice, where two others are registered.
abbrev registrations : List Call
registrations = sign_up plain_crypto config ann ∷ sign_up plain_crypto config ann ∷ []

abbrev ann_registered : User
ann_registered = record {
  id = 1002;
  email = "ann@example.com";
  password_hash = "secret";
  full_name = "Ann";
  role = role_user;
  created_at = 103;
  updated_at = 103;
}

registrations_lem :
    (run_calls plain_service calm registrations at_open).db.users ≡ ann_registered ∷ opened.users
unfolding run_calls run_call register register_new create_user insert_user find_user_by_email
    respond hash_password generate_token ◌>>=◌ handle pure raise catch time_now uuid_new statement
    lone replica_select answers
registrations_lem = refl

no_shared_email_example : ann_registered.id ≡ 1002
no_shared_email_example =
    no_shared_email plain_service calm registrations at_open 1002 1002 ann_registered ann_registered
      calm-IsLawful (refl, (refl, tt)) (rw registrations_lem refl) (rw registrations_lem refl) refl

ann_admitted :
    admit plain_crypto "key" 5 post_reserve (bearer (encode claims_of_ann))
    ≡ goes_on (some claims_of_ann)
unfolding admit require_auth validate_token
ann_admitted = refl

admit-Meets_example :
    Meets plain_crypto "key" 5 somebody (bearer (encode claims_of_ann)) (some claims_of_ann)
admit-Meets_example =
    admit-Meets plain_crypto "key" 5 post_reserve (bearer (encode claims_of_ann))
      (some claims_of_ann) ann_admitted
