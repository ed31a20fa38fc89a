-- ===== src/Jwt.antt =====
-- pkg/jwt/jwt.go and internal/utils/password.go. The libraries behind them (golang-jwt, bcrypt) are
-- parameters; bcrypt salts a hash, so it may answer differently at every call.
use ticket_master.Prelude.{ℕ, ◌+◌, ◌*◌, ◌/◌, String, Bool, true, false, Option, none, some}
use ticket_master.Exec.{Exec, driver, pure, raise, answers, time_now, ◌>>=◌}

-- The times are jwt.NumericDate, in whole seconds.
pub record Claims : Type 0 where
  pub user_id : ℕ
  pub email : String
  pub role : String
  pub expires_at : ℕ
  pub issued_at : ℕ
  pub not_before : ℕ
  pub issuer : String

-- What jwt.ParseWithClaims answers: the claims with token.Valid, or an error.
pub data Parsed : Type 0 where
  parsed : Claims → Bool → Parsed
  token_expired refused : Parsed

pub record Crypto : Type 0 where
  pub hash : ℕ → String → Option String  -- bcrypt.GenerateFromPassword, at a call
  pub compare : String → String → Bool  -- bcrypt.CompareHashAndPassword, of a hash and a password
  pub sign : Claims → String → Option String  -- HS256, with a secret
  pub parse : ℕ → String → (Bool → Option String) → Parsed  -- at a second, with the key function

pub data TokenError : Type 0 where
  invalid_token expired_token : TokenError

pub data Validated : Type 0 where
  valid : Claims → Validated
  invalid : TokenError → Validated

abbrev pub or_fail {ℓ} : {A : Type ℓ} → Option A → Exec A
or_fail (some a) = pure a
or_fail none = raise driver

-- The key function: whether the token's method is HMAC.
abbrev pub key_for : String → Bool → Option String
key_for secret true = some secret
key_for secret false = none

abbrev pub validated : Parsed → Validated
validated (parsed claims true) = valid claims
validated (parsed claims false) = invalid invalid_token
validated token_expired = invalid expired_token
validated refused = invalid invalid_token

abbrev pub seconds : ℕ → ℕ
seconds t = t / 1_000_000_000

-- time.Hour
abbrev pub hour : ℕ
hour = 3_600_000_000_000

abbrev pub new_claims : ℕ → String → String → ℕ → ℕ → ℕ → Claims
new_claims user_id email role expiration issued start = record {
  user_id = user_id;
  email = email;
  role = role;
  expires_at = seconds expiration;
  issued_at = seconds issued;
  not_before = seconds start;
  issuer = "event-ticketing-system";
}

module _ (c : Crypto) where
  -- HashPassword
  unfoldable pub hash_password : String → Exec String
  hash_password password = do hashed ← answers (λ n. c.hash n password); or_fail hashed

  -- CheckPasswordHash
  unfoldable pub check_password_hash : String → String → Bool
  check_password_hash password hashed = c.compare hashed password

  -- GenerateToken
  unfoldable pub generate_token : ℕ → String → String → String → ℕ → Exec String
  generate_token user_id email role secret expiry_hours = do
    now ← time_now
    issued ← time_now
    start ← time_now
    or_fail (c.sign (new_claims user_id email role (now + expiry_hours * hour) issued start) secret)

  -- ValidateToken, at a time
  unfoldable pub validate_token : ℕ → String → String → Validated
  validate_token now token secret = validated (c.parse (seconds now) token (key_for secret))
