-- ===== src/Access.antt =====
-- internal/middleware/auth_middleware.go: who may call a handler. What the context of a request knows of
-- its caller is the claims of the token, if there was one.
pub mod Bearer
use ticket_master.Prelude.{
  ℕ, String, Bool, true, false, Option, none, some, List, [], ◌∷◌, ◌==◌, if◌then◌else◌, str_eq,
}
use Prim.Native.Char.{Char, code}
use Prim.Native.String.{[] as nil, ◌∷◌ as cons}
use ticket_master.Jwt.{Crypto, Claims, Validated, valid, invalid, validate_token}

abbrev pub put_front : Char → List String → List String
put_front c [] = (cons c nil) ∷ []
put_front c (s ∷ ss) = (cons c s) ∷ ss

-- strings.Split(text, " ")
abbrev pub split : String → List String
split nil = nil ∷ []
split (cons c s) = let rest = split s in if code c == 32 then nil ∷ rest else put_front c rest

-- The request goes on, or ends with a status and a message.
pub data Decision (A : Type 0) : Type 0 where
  goes_on : A → Decision A
  aborts : ℕ → String → Decision A

abbrev pub by_token : Validated → Decision Claims
by_token (valid claims) = goes_on claims
by_token (invalid e) = aborts 401 "invalid or expired token"

module _ (c : Crypto) (secret : String) (now : ℕ) where
  abbrev pub by_parts : List String → Decision Claims
  by_parts [] = aborts 401 "invalid authorization header format"
  by_parts (scheme ∷ []) = aborts 401 "invalid authorization header format"
  by_parts (scheme ∷ token ∷ []) =
      if str_eq scheme "Bearer"
      then by_token (validate_token c now token secret)
      else aborts 401 "invalid authorization header format"
  by_parts (scheme ∷ token ∷ more ∷ rest) = aborts 401 "invalid authorization header format"

  -- RequireAuth; a header that is not there is the empty text.
  unfoldable pub require_auth : String → Decision Claims
  require_auth header =
      if str_eq header ""
      then aborts 401 "authorization header required"
      else by_parts (split header)

abbrev pub is_admin_name : String → Bool
is_admin_name role = str_eq role "admin"

-- RequireAdmin
unfoldable pub require_admin : Option Claims → Decision Claims
require_admin none = aborts 403 "admin access required"
require_admin (some claims) =
    if is_admin_name claims.role then goes_on claims else aborts 403 "admin access required"

-- GetUserID
abbrev pub get_user_id : Option Claims → Option ℕ
get_user_id none = none
get_user_id (some claims) = some claims.user_id
