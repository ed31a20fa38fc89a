-- ===== src/Inventory/Emails.antt =====
-- Accounts: an e-mail address and an id each name at most one user.
use ticket_master.Prelude.{
  ℕ, ◌≡◌, refl, String, true, false, none, some, List, [], ◌∷◌, arith, sym, str_eq, eq_iff,
}
use ticket_master.Table.{get, find, written, modify, written-update}
use ticket_master.Model.{Db, User, UserRole, get_user}
use ticket_master.Repository.Users.{has_email, set_role, update_role}
use ticket_master.Inventory.{
  Step, Reach, here, next, reserves, extends, purchases, reverts, releases, stores_intent,
  adds_event, adds_seat, adds_venue, adds_user, changes_role,
}

-- No two users have the same address.
abbrev pub Unshared : List User → Type 0
Unshared [] = Unit {0}
Unshared (u ∷ us) = (find (has_email u.email) us ≡ none) × Unshared us

find-set_role :
    (email : String) (id now : ℕ) (role : UserRole) (us : List User)
    → find (has_email email) us ≡ none
    → find (has_email email) (modify (λ u. u.id) id (set_role role now) us) ≡ none
find-set_role email id now role [] e = refl
find-set_role email id now role (u ∷ us) e = ground (arith, find-set_role email id now role us)

set_role-Unshared :
    (id now : ℕ) (role : UserRole) (us : List User)
    → Unshared us
    → Unshared (modify (λ u. u.id) id (set_role role now) us)
set_role-Unshared id now role [] h = tt
set_role-Unshared id now role (u ∷ us) h =
    ground (arith, set_role-Unshared id now role us, find-set_role u.email id now role us)

changes_role-Unshared :
    (id now : ℕ) (role : UserRole) (us : List User)
    → Unshared us
    → Unshared (written us (update_role id role now us))
changes_role-Unshared id now role us h =
    rw (written-update (λ u. u.id) id (λ _. true) (set_role role now) us)
      (set_role-Unshared id now role us h)

Step-Unshared : {db db' : Db} → Unshared db.users → Step db db' → Unshared db'.users
Step-Unshared h (reserves user event id until now t number e s a b c d f) = h
Step-Unshared h (extends id until t b s a c d e f) = h
Step-Unshared h (purchases id t b e k) = h
Step-Unshared h (reverts id t b e k) = h
Step-Unshared h (releases id t status b n e k) = h
Step-Unshared h (stores_intent id t intent b e k) = h
Step-Unshared h (adds_venue v n) = h
Step-Unshared h (adds_user u n m) = (m, h)
Step-Unshared {db} h (changes_role id now role) = changes_role-Unshared id now role db.users h
Step-Unshared h (adds_event e n a) = h
Step-Unshared h (adds_seat s n u a) = h

Reach-Unshared : {db db' : Db} → Unshared db.users → Reach db db' → Unshared db'.users
Reach-Unshared h here = h
Reach-Unshared h (next r s) = Step-Unshared (Reach-Unshared h r) s

find_misses :
    (email : String) (i : ℕ) (us : List User) (a : User)
    → find (has_email email) us ≡ none
    → get (λ u. u.id) i us ≡ some a
    → str_eq a.email email ≡ false
find_misses email i [] a e f = ground arith
find_misses email i (u ∷ us) a e f = ground (arith, find_misses email i us a)

Unshared-same :
    (i j : ℕ) (us : List User) (a b : User)
    → Unshared us
    → get (λ u. u.id) i us ≡ some a
    → get (λ u. u.id) j us ≡ some b
    → str_eq a.email b.email ≡ true
    → str_eq b.email a.email ≡ true
    → i ≡ j
Unshared-same i j [] a b h e f k l = ground arith
Unshared-same i j (u ∷ us) a b h e f k l =
    ground (arith, Unshared-same i j us a b, find_misses u.email i us a, find_misses u.email j us b)

-- From tables in which no two users share an e-mail address, after any number of transactions of any
-- clients, two users with the same address are the same user.
pub no_shared_email :
    (start db : Db) (i j : ℕ) (a b : User)
    → Unshared start.users
    → Reach start db
    → get_user i db ≡ some a
    → get_user j db ≡ some b
    → a.email ≡ b.email
    → i ≡ j
no_shared_email start db i j a b h r e f s =
    Unshared-same i j db.users a b (Reach-Unshared h r) e f ((eq_iff a.email b.email).1 s)
      ((eq_iff b.email a.email).1 (sym s))
