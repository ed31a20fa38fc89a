-- ===== src/Auth/Reaches.antt =====
-- internal/services/auth_service.go changes the tables by steps of `Inventory` alone.
use ticket_master.Prelude.{ℕ, String, Option, none, some}
use ticket_master.Model.{User}
use ticket_master.Exec.{Env, Error, driver, user_not_found}
use ticket_master.Repository.Refines.{IsLawful}
use ticket_master.Repository.Reaches.{Reaches, reaches_rules, pure-Reaches, raise-Reaches}
use ticket_master.Repository.Reaches.Catalog.{
  create_user-Reaches, find_user_by_email-Reaches, find_user_by_id-Reaches,
  update_user_role-Reaches,
}
use ticket_master.Jwt.{Crypto, or_fail, hash_password, generate_token}
use ticket_master.Auth.{
  JwtConfig, RegisterRequest, respond, register_new, unless_error, register, login,
  promote_to_admin, demote_to_user,
}

or_fail-Reaches {ℓ} : {A : Type ℓ} {env : Env} (o : Option A) → Reaches env (or_fail o)
or_fail-Reaches none = raise-Reaches driver
or_fail-Reaches (some a) = pure-Reaches a

module _ {env : Env} (lawful : IsLawful env) (c : Crypto) (config : JwtConfig) where
  respond-Reaches : (u : User) → Reaches env (respond c config u)
  unfolding respond generate_token
  respond-Reaches u = search (reaches_rules, or_fail-Reaches) depth 10

  register_new-Reaches : (req : RegisterRequest) → Reaches env (register_new c config req)
  unfolding register_new hash_password
  register_new-Reaches req =
      search (reaches_rules, or_fail-Reaches, create_user-Reaches, respond-Reaches) depth 10

  unless_error-Reaches :
      (req : RegisterRequest) (e : Error) → Reaches env (unless_error c config req e)
  unless_error-Reaches req user_not_found = register_new-Reaches req
  unless_error-Reaches req e = raise-Reaches e

  pub register-Reaches : (req : RegisterRequest) → Reaches env (register c config req)
  unfolding register
  register-Reaches req =
      search (reaches_rules, find_user_by_email-Reaches, unless_error-Reaches) depth 8

  pub login-Reaches : (email password : String) → Reaches env (login c config email password)
  unfolding login
  login-Reaches email password =
      search (reaches_rules, find_user_by_email-Reaches, respond-Reaches) depth 8

module _ {env : Env} (lawful : IsLawful env) where
  pub promote_to_admin-Reaches : (id : ℕ) → Reaches env (promote_to_admin id)
  unfolding promote_to_admin
  promote_to_admin-Reaches id =
      search (reaches_rules, find_user_by_id-Reaches, update_user_role-Reaches) depth 8

  pub demote_to_user-Reaches : (id : ℕ) → Reaches env (demote_to_user id)
  unfolding demote_to_user
  demote_to_user-Reaches id =
      search (reaches_rules, find_user_by_id-Reaches, update_user_role-Reaches) depth 8
