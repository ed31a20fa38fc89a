-- ===== src/Auth/Login.antt =====
-- internal/services/auth_service.go with internal/middleware/auth_middleware.go: who registers can log
-- in, and the token opens the handlers.
use ticket_master.Prelude.{
  ℕ, suc, ◌+◌, ◌*◌, ◌≤◌, ◌<◌, ◌≡◌, refl, String, Bool, true, Option, none, some, eq_iff,
}
use ticket_master.Table.{find}
use ticket_master.Model.{Db, User, role_user, get_user}
use ticket_master.Exec.{
  Env, World, err, user_not_found, pure, tick, time_now, uuid_new, answers, handle, statement, lone,
  raise, catch,
}
use ticket_master.Exec.Returns.{
  Returns, IsReliable, IsIdle, Returns-mono, bind_returns, catch_returns, statement_returns,
  idle_lone_returns,
}
use ticket_master.Repository.Statements.Returns.{require_returns, select_returns}
use ticket_master.Repository.Users.{
  has_email, add_user, insert_user, stamped_user, create_user, find_user_by_email,
}
use ticket_master.Jwt.{
  Crypto, Claims, parsed, seconds, hour, key_for, new_claims, hash_password, check_password_hash,
  generate_token, validate_token,
}
use ticket_master.Access.{goes_on, require_auth}
use ticket_master.Access.Bearer.{bearer, IsSpaceless, require_auth_iff}
use ticket_master.Auth.{
  JwtConfig, RegisterRequest, AuthResponse, role_name, registered, respond, register_new, register,
  login,
}

-- What the libraries document: a password matches its hash, a signed token is parsed to its claims
-- between its start and its end where the key function accepts HMAC with the same secret, and a token
-- has no spaces.
pub record IsSound (c : Crypto) : Type 0 where
  pub matches :
      (n : ℕ) (password hashed : String)
      → c.hash n password ≡ some hashed
      → c.compare hashed password ≡ true
  pub parses :
      (claims : Claims) (secret token : String) (now : ℕ) (key : Bool → Option String)
      → c.sign claims secret ≡ some token
      → key true ≡ some secret
      → claims.not_before ≤ now
      → now < claims.expires_at
      → c.parse now token key ≡ parsed claims true
  pub spaceless :
      (claims : Claims) (secret token : String)
      → c.sign claims secret ≡ some token
      → IsSpaceless token

-- The libraries hash this password, and sign the claims of a user with this address.
pub record Works (c : Crypto) (config : JwtConfig) (email password : String) : Type 0 where
  pub hashed : (n : ℕ) → (h : String) × (c.hash n password ≡ some h)
  pub signed :
      (user_id expiration issued start : ℕ)
      → (t : String) × (c.sign
            (new_claims user_id email "user" expiration issued start)
            config.secret
          ≡ some t)

-- The response carries the user and a token that RequireAuth accepts, while it lasts, for that user.
pub record Opens (c : Crypto) (config : JwtConfig) (env : Env) (u : User) (r : AuthResponse)
    : Type 0 where
  pub user : r.user ≡ u
  pub claims : Claims
  pub same_id : claims.user_id ≡ u.id
  pub same_role : claims.role ≡ role_name u.role
  pub issue : ℕ  -- the call that told the time of the issue
  pub lasts : claims.expires_at ≡ seconds (env.clock issue + config.expiry_hours * hour)
  pub accepted :
      (now : ℕ)
      → claims.not_before ≤ seconds now
      → seconds now < claims.expires_at
      → require_auth c config.secret now (bearer r.token) ≡ goes_on claims

module _ (c : Crypto) (config : JwtConfig) (env : Env) (req : RegisterRequest) (sound : IsSound c)
    (works : Works c config req.email req.password) (reliable : IsReliable env)
    (idle : IsIdle env) where
  token_Opens :
      (claims : Claims) (token : String) (u : User) (call : ℕ)
      → c.sign claims config.secret ≡ some token
      → claims.user_id ≡ u.id
      → claims.role ≡ role_name u.role
      → claims.expires_at ≡ seconds (env.clock call + config.expiry_hours * hour)
      → Opens c config env u (record { user = u; token = token })
  unfolding validate_token
  token_Opens claims token u call e i r l = record {
    user = refl;
    claims = claims;
    same_id = i;
    same_role = r;
    issue = call;
    lasts = l;
    accepted = λ now h k. (require_auth_iff c config.secret now (bearer token) claims).1 (
      token,
      refl,
      sound.spaceless claims config.secret token e,
      rw (sound.parses claims config.secret token (seconds now) (key_for config.secret) e refl h k)
          refl,
    );
  }

  abbrev issued_claims : World → User → Claims
  issued_claims w u =
      new_claims u.id u.email (role_name u.role) (env.clock w.calls + config.expiry_hours * hour)
        (env.clock (suc w.calls)) (env.clock (suc (suc w.calls)))

  abbrev IsAccount : User → Type 0
  IsAccount u = (u.email ≡ req.email) × (u.role ≡ role_user)

  signs :
      (w : World) (u : User)
      → IsAccount u
      → (t : String) × (c.sign (issued_claims w u) config.secret ≡ some t)
  signs w u (same, role) =
      rw (same, role)
        (works.signed u.id (env.clock w.calls + config.expiry_hours * hour)
          (env.clock (suc w.calls)) (env.clock (suc (suc w.calls))))

  respond_returns :
      (w : World) (u : User)
      → IsAccount u
      → Returns (respond c config u env w) (λ r w'. Opens c config env u r × (w'.db ≡ w.db))
  unfolding respond generate_token time_now pure
  respond_returns w u account =
      let claims = issued_claims w u in
      let (token, e) = signs w u account in
      bind_returns _ _ env w _ (
        bind_returns _ _ env w _ (
          bind_returns _ _ env _ _ (
            bind_returns _ _ env _ _
              (rw e (token_Opens claims token u w.calls e refl refl refl, refl)))))

  responds :
      (w : World) (u : User)
      → IsAccount u
      → Returns (respond c config u env w) (λ r _. Opens c config env u r)
  responds w u account =
      Returns-mono (respond c config u env w) (λ r w'. Opens c config env u r × (w'.db ≡ w.db))
        (λ r _. Opens c config env u r) (respond_returns w u account) λ r w' o. o.0

  create_user_returns :
      (w : World) (u : User) (Q : User → World → Type 0)
      → get_user (env.uuid w.calls) w.db ≡ none
      → find (has_email u.email) w.db.users ≡ none
      → ((w' : World)
          → w'.db ≡ add_user (stamped_user (env.uuid w.calls) (env.clock (suc w.calls)) u) w.db
          → Q (stamped_user (env.uuid w.calls) (env.clock (suc w.calls)) u) w')
      → Returns (create_user u env w) Q
  unfolding create_user insert_user uuid_new time_now
  create_user_returns w u Q f g k = bind_returns _ _ env w _ (
      bind_returns _ _ env _ _ (
        idle_lone_returns _ env _ _ idle (
          catch_returns _ _ env _ _
            (statement_returns _ env _ Q _ _ reliable (rw (f, g) refl) (k _ refl)))))

  login_returns :
      (w : World) (u : User)
      → IsAccount u
      → find (has_email req.email) w.db.users ≡ some u
      → c.compare u.password_hash req.password ≡ true
      → Returns (login c config req.email req.password env w) (λ r _. Opens c config env u r)
  unfolding login find_user_by_email check_password_hash
  login_returns w u account f m = bind_returns _ _ env w _ (
      catch_returns _ _ env w _ (
        idle_lone_returns _ env w _ idle (
          catch_returns _ _ env _ _ (
            select_returns env _ (λ _ db. find (has_email req.email) db.users) u _ reliable f
              (bind_returns _ _ env _ _ (require_returns env _ _ _ _ m (responds _ u account)))))))

  -- What a registration leaves behind: the account that it returned.
  abbrev Registered : AuthResponse → World → Type 0
  Registered r w =
      IsAccount r.user
      × (find (has_email req.email) w.db.users ≡ some r.user)
      × (c.compare r.user.password_hash req.password ≡ true)

  not_there :
      (w : World)
      → find (has_email req.email) w.db.users ≡ none
      → find_user_by_email req.email env w
        ≡ (err user_not_found, tick (record w { tx_time = env.db_clock w.calls }))
  unfolding find_user_by_email lone catch raise statement
  not_there w f = rw (idle.alone w.calls w.db, f, reliable w.calls) refl

  respond-Registered :
      (w : World) (u : User) (old : Db)
      → w.db ≡ add_user u old
      → IsAccount u
      → c.compare u.password_hash req.password ≡ true
      → Returns (respond c config u env w) Registered
  respond-Registered w u old d (same, role) m =
      Returns-mono (respond c config u env w) (λ r w'. Opens c config env u r × (w'.db ≡ w.db))
        Registered (respond_returns w u (same, role))
        λ r w' o.
          rw (o.0.user, o.1, d, same, role, (eq_iff req.email req.email).1 refl)
            ((refl, refl), refl, m)

  register_new_returns :
      (w : World)
      → ((n : ℕ) → get_user (env.uuid n) w.db ≡ none)
      → find (has_email req.email) w.db.users ≡ none
      → Returns (register_new c config req env w) Registered
  unfolding register_new hash_password answers pure
  register_new_returns w fresh f =
      let (h, e) = works.hashed w.calls in
      bind_returns _ _ env w _ (
        bind_returns _ _ env w _ (
          rw e (
            bind_returns _ _ env _ _ (
              create_user_returns _ (registered req h) _ (fresh _) f λ w' d.
                respond-Registered w' _ _ d (refl, refl)
                  (sound.matches w.calls req.password h e)))))

-- Where the database answers and other clients are idle, and the libraries do what they document: a
-- new address can be registered, and afterwards the same address and password log in to the account
-- that was returned, with a token that RequireAuth accepts for its id and role while it lasts.
pub register_then_login :
    (c : Crypto) (config : JwtConfig) (env : Env) (w : World) (req : RegisterRequest)
    → IsSound c
    → Works c config req.email req.password
    → IsReliable env
    → IsIdle env
    → ((n : ℕ) → get_user (env.uuid n) w.db ≡ none)
    → find (has_email req.email) w.db.users ≡ none
    → Returns (register c config req env w) (λ r w'.
      (r.user.email ≡ req.email)
      × Returns (login c config req.email req.password env w') (λ s _. Opens c config env r.user s))
unfolding register handle
register_then_login c config env w req sound works reliable idle fresh f =
    rw (not_there c config env req sound works reliable idle w f) (
      Returns-mono (register_new c config req env _)
        (Registered c config env req sound works reliable idle) _
        (register_new_returns c config env req sound works reliable idle _ fresh f)
        λ r w' (account, found, m). (
          account.0,
          login_returns c config env req sound works reliable idle w' r.user account found m,
        ))
