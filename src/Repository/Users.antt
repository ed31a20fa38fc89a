-- ===== src/Repository/Users.antt =====
-- internal/repository/user_repository.go.
use ticket_master.Prelude.{ℕ, String, Bool, true, Option, none, some, List, ◌∷◌, ltb, str_eq}
use ticket_master.Table.{find, update, order_by}
use ticket_master.Model.{Db, User, UserRole, get_user}
use ticket_master.Exec.{
  Exec, user_not_found, user_exists, statement, select, replica_select, lone, time_now, uuid_new,
  ◌>>=◌,
}
use ticket_master.Repository.Statements.{or_missing, stored}

abbrev pub has_email : String → User → Bool
has_email email u = str_eq u.email email

abbrev pub add_user : User → Db → Db
add_user u db = record db { users = u ∷ db.users }

abbrev pub with_users : Db → List User → Db
with_users db rows = record db { users = rows }

-- INSERT INTO users …; the columns id and email are unique.
abbrev pub insert_user_row : User → Db → Option User → Option User → Option (User × Db)
insert_user_row u db none none = some (u, add_user u db)
insert_user_row u db _ _ = none

unfoldable pub insert_user : User → Exec User
insert_user u =
    statement λ _ db. insert_user_row u db (get_user u.id db) (find (has_email u.email) db.users)

abbrev pub stamped_user : ℕ → ℕ → User → User
stamped_user id now u = record u { id = id; created_at = now; updated_at = now }

-- Create
unfoldable pub create_user : User → Exec User
create_user user = do
  id ← uuid_new
  now ← time_now
  lone (or_missing (insert_user (stamped_user id now user)) user_exists)

-- FindByEmail
unfoldable pub find_user_by_email : String → Exec User
find_user_by_email email =
    lone (or_missing (select (λ _ db. find (has_email email) db.users)) user_not_found)

-- FindByID
unfoldable pub find_user_by_id : ℕ → Exec User
find_user_by_id id = lone (or_missing (select (λ _ db. get_user id db)) user_not_found)

abbrev pub set_role : UserRole → ℕ → User → User
set_role role now u = record u { role = role; updated_at = now }

abbrev pub update_role : ℕ → UserRole → ℕ → List User → Option (User × List User)
update_role id role now rows = update (λ u. u.id) id (λ _. true) (set_role role now) rows

-- UpdateRole
unfoldable pub update_user_role : ℕ → UserRole → Exec User
update_user_role id role = do
  now ← time_now
  lone (
      or_missing (statement λ _ db. stored (with_users db) (update_role id role now db.users))
        user_not_found)

-- ListUsers
unfoldable pub list_users : Exec (List User)
list_users = replica_select (λ db. some (order_by (λ u v. ltb v.created_at u.created_at) db.users))
