-- ===== src/Auth.antt =====
-- internal/services/auth_service.go: accounts, logins and roles.
pub mod Reaches
pub mod Login
use ticket_master.Prelude.{ℕ, String, Bool, true, false, not, List}
use ticket_master.Model.{User, UserRole, role_user, role_admin, is_admin}
use ticket_master.Exec.{
  Exec, Error, Result, ok, err, ServiceError, service, user_not_found, pure, raise, catch, handle,
  ◌>>=◌,
}
use ticket_master.Repository.Statements.{◌>>◌, require}
use ticket_master.Repository.Users.{
  create_user, find_user_by_email, find_user_by_id, update_user_role, list_users,
}
use ticket_master.Jwt.{Crypto, hash_password, check_password_hash, generate_token}

pub record RegisterRequest : Type 0 where
  pub email : String
  pub password : String
  pub full_name : String

pub record AuthResponse : Type 0 where
  pub user : User
  pub token : String

-- The configuration of tokens.
pub record JwtConfig : Type 0 where
  pub secret : String
  pub expiry_hours : ℕ

abbrev pub role_name : UserRole → String
role_name role_user = "user"
role_name role_admin = "admin"

abbrev pub registered : RegisterRequest → String → User
registered req hashed = record {
  id = 0;
  email = req.email;
  password_hash = hashed;
  full_name = req.full_name;
  role = role_user;
  created_at = 0;
  updated_at = 0;
}

abbrev pub login_error : Error → Error
login_error user_not_found = service ServiceError.invalid_creds
login_error other = other

module _ (c : Crypto) (config : JwtConfig) where
  unfoldable pub respond : User → Exec AuthResponse
  respond user = do
    token ←
        generate_token c user.id user.email (role_name user.role) config.secret config.expiry_hours
    pure (record { user = user; token = token })

  unfoldable pub register_new : RegisterRequest → Exec AuthResponse
  register_new req = do
    hashed ← hash_password c req.password
    user ← create_user (registered req hashed)
    respond user

  -- Whether there is no such user yet.
  abbrev pub unless_error : RegisterRequest → Error → Exec AuthResponse
  unless_error req user_not_found = register_new req
  unless_error req other = raise other

  -- Register
  unfoldable pub register : RegisterRequest → Exec AuthResponse
  register req =
      handle (find_user_by_email req.email) (λ _. raise (service ServiceError.user_exists))
        (unless_error req)

  -- Login
  unfoldable pub login : String → String → Exec AuthResponse
  login email password = do
    user ← catch (find_user_by_email email) (λ e. raise (login_error e))
    require (check_password_hash c password user.password_hash) (service ServiceError.invalid_creds)
    respond user

-- PromoteToAdmin
unfoldable pub promote_to_admin : ℕ → Exec User
promote_to_admin user_id = do
  user ← find_user_by_id user_id
  require (not (is_admin user.role)) (service ServiceError.already_admin)
  update_user_role user_id role_admin
  pure (record user { role = role_admin })

-- DemoteToUser
unfoldable pub demote_to_user : ℕ → Exec User
demote_to_user user_id = do
  user ← find_user_by_id user_id
  require (is_admin user.role) (service ServiceError.already_regular)
  update_user_role user_id role_user
  pure (record user { role = role_user })
