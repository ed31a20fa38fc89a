-- ===== src/Handlers.antt =====
-- internal/handlers: what a request is answered. A request that does not bind to its type, or a path
-- that holds no uuid, is `none`; so is a caller that the context does not know. A reply has its status
-- code and, where it is not an error, what it carries; the texts of errors are left out.
pub mod Bookings
pub mod Hidden
pub mod Accounts
pub mod Catalog
pub mod Queue
use ticket_master.Prelude.{ℕ, Option, none, some}
use ticket_master.Exec.{Exec, Error, pure, handle}

pub data Reply {ℓ} (A : Type ℓ) : Type ℓ where
  replied : ℕ → A → Reply A
  refused : ℕ → Reply A

-- result, err := …; if err != nil { … }; c.JSON(code, result)
unfoldable pub respond_with {ℓ} : {A : Type ℓ} → ℕ → (Error → ℕ) → Exec A → Exec (Reply A)
respond_with code status m = handle m (λ a. pure (replied code a)) (λ e. pure (refused (status e)))

-- c.ShouldBindJSON, or uuid.Parse
abbrev pub bound {ℓ κ} :
    {A : Type ℓ} {B : Type κ} → Option A → (A → Exec (Reply B)) → Exec (Reply B)
bound none f = pure (refused 400)
bound (some a) f = f a

-- middleware.GetUserID
abbrev pub signed_in {κ} : {B : Type κ} → Option ℕ → (ℕ → Exec (Reply B)) → Exec (Reply B)
signed_in none f = pure (refused 401)
signed_in (some user_id) f = f user_id
