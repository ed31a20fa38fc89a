-- ===== src/Handlers/Accounts.antt =====
-- internal/handlers/auth_handler.go.
use ticket_master.Prelude.{ℕ, String, Bool, Option, none, some, List, map, ◌==◌, if◌then◌else◌}
use ticket_master.Model.{User, UserRole}
use ticket_master.Exec.{Exec, Error, ServiceError, service, user_not_found, pure, ◌>>=◌}
use ticket_master.Repository.Users.{find_user_by_id, list_users}
use ticket_master.Jwt.{Crypto}
use ticket_master.Auth.{
  JwtConfig, RegisterRequest, AuthResponse, register, login, promote_to_admin, demote_to_user,
}
use ticket_master.Handlers.{Reply, refused, respond_with, bound, signed_in}

pub record LoginRequest : Type 0 where
  pub email : String
  pub password : String

-- A user without the hash of the password.
pub record UserResponse : Type 0 where
  pub id : ℕ
  pub email : String
  pub full_name : String
  pub role : UserRole
  pub created_at : ℕ

abbrev pub register_status : Error → ℕ
register_status (service ServiceError.user_exists) = 409
register_status other = 500

abbrev pub login_status : Error → ℕ
login_status (service ServiceError.invalid_creds) = 401
login_status other = 500

abbrev pub me_status : Error → ℕ
me_status user_not_found = 404
me_status other = 500

abbrev pub promote_status : Error → ℕ
promote_status (service ServiceError.already_admin) = 409
promote_status user_not_found = 404
promote_status other = 500

abbrev pub demote_status : Error → ℕ
demote_status (service ServiceError.already_regular) = 409
demote_status user_not_found = 404
demote_status other = 500

abbrev pub internal_error : Error → ℕ
internal_error e = 500

abbrev pub safe_user : User → UserResponse
safe_user u = record {
  id = u.id;
  email = u.email;
  full_name = u.full_name;
  role = u.role;
  created_at = u.created_at;
}

-- The response to a change of the role leaves the time at its zero value.
abbrev pub shown_user : User → UserResponse
shown_user u = record (safe_user u) { created_at = 0 }

module _ (c : Crypto) (config : JwtConfig) where
  -- Register
  unfoldable pub register_handler : Option RegisterRequest → Exec (Reply AuthResponse)
  register_handler request =
      bound request λ req. respond_with 201 register_status (register c config req)

  -- Login
  unfoldable pub login_handler : Option LoginRequest → Exec (Reply AuthResponse)
  login_handler request =
      bound request λ req. respond_with 200 login_status (login c config req.email req.password)

-- GetMe
unfoldable pub get_me_handler : Option ℕ → Exec (Reply User)
get_me_handler caller =
    signed_in caller λ user_id. respond_with 200 me_status (find_user_by_id user_id)

-- ListUsers
unfoldable pub list_users_handler : Exec (Reply (List UserResponse))
list_users_handler =
    respond_with 200 internal_error (do users ← list_users; pure (map safe_user users))

-- PromoteToAdmin
unfoldable pub promote_handler : Option ℕ → Exec (Reply UserResponse)
promote_handler path = bound path λ user_id.
    respond_with 200 promote_status (do u ← promote_to_admin user_id; pure (shown_user u))

abbrev pub is_caller : ℕ → Option ℕ → Bool
is_caller user_id none = user_id == 0
is_caller user_id (some caller) = caller == user_id

-- DemoteToUser
unfoldable pub demote_handler : Option ℕ → Option ℕ → Exec (Reply UserResponse)
demote_handler path caller = bound path λ user_id.
    if is_caller user_id caller
    then pure (refused 400)
    else respond_with 200 demote_status (do u ← demote_to_user user_id; pure (shown_user u))
