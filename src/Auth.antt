-- ===== src/Auth.antt =====
-- src/anthias_server/lib/auth.py: the settings form that changes the operator's account, the gate
-- `authorized`, and the throttled warning on Basic authentication. Django's password hashes and
-- password rules are the parameter `Django`; a write to the `User` table is a new list of rows.
pub mod Operator
pub mod Lockout
pub mod Account
pub mod Gate
pub mod Throttle
pub mod Examples
use mupitech_player.Prelude.{
  Bool, List, Option, Text, [], codes, false, if◌then◌else◌, is_some, ltb, none, not, some, text_eq,
  true, ℕ, ◌&&◌, ◌+◌, ◌==◌, ◌||◌, ◌∷◌,
}

pub record User : Type 0 where
  pub pk : ℕ
  pub username : Text
  -- the stored hash
  pub password : Text
  pub is_active : Bool
  pub is_staff : Bool
  pub is_superuser : Bool

-- `check_password`, `make_password`, and whether `validate_password` accepts a password for a
-- name; and the primary key that the table gives to a new row.
pub record Django : Type 0 where
  pub check_password : Text → Text → Bool
  pub make_password : Text → Text
  pub validate_password : Text → Text → Bool
  pub next_pk : List User → ℕ

-- The messages of `AuthSettingsError`.
pub data AuthSettingsError : Type 0 where
  unknown_backend other_operator current_missing incorrect_current mismatch weak : AuthSettingsError
  username_taken must_provide_username must_provide_password : AuthSettingsError

-- What a step that may raise comes to: its value, or the error raised.
pub data Outcome (A : Type 0) : Type 0 where
  raised : AuthSettingsError → Outcome A
  saved : A → Outcome A

abbrev and_then : {A B : Type 0} → (A → Outcome B) → Outcome A → Outcome B
and_then step (raised e) = raised e
and_then step (saved a) = step a

infixl 5 ◌>>=◌ ◌>>◌
abbrev pub ◌>>=◌ : {A B : Type 0} → Outcome A → (A → Outcome B) → Outcome B
first_part >>= step = and_then step first_part

abbrev pub ◌>>◌ : {B : Type 0} → Outcome (Unit {0}) → Outcome B → Outcome B
test >> rest = and_then (λ _. rest) test

-- `if not test: raise AuthSettingsError(...)`
abbrev require : Bool → AuthSettingsError → Outcome (Unit {0})
require true e = saved tt
require false e = raised e

pub record Form : Type 0 where
  pub new_auth_backend : Text
  pub current_pwd : Text
  pub new_username : Text
  pub new_pwd : Text
  pub new_pwd_confirm : Text
  pub prev_auth_backend : Text

-- The truth value of a string.
abbrev pub is_set : Text → Bool
is_set [] = false
is_set (c ∷ cs) = true

abbrev pub auth_basic : Text
auth_basic = codes "auth_basic"

-- `new_auth_backend in _VALID_AUTH_BACKENDS`
abbrev pub is_valid_backend : Text → Bool
is_valid_backend b = not (is_set b) || text_eq b auth_basic

first : (User → Bool) → List User → Option User
first p [] = none
first p (u ∷ us) = if p u then some u else first p us

or_first : Option User → List User → Option User
or_first (some u) us = some u
or_first none [] = none
or_first none (u ∷ us) = some u

-- `_persisted_operator`, over the rows by id.
pub persisted_operator : List User → Option User
unfolding first or_first
persisted_operator users = or_first (first (λ u. u.is_active && u.is_superuser) users) users

-- `session_user is not None and session_user.pk != operator.pk`
pub other_session : Option User → User → Bool
other_session none operator = false
other_session (some u) operator = not (u.pk == operator.pk)

-- `current_pass_correct`: `none` where no password was given.
pub password_state : Django → Option User → Text → Option Bool
password_state dj operator [] = none
password_state dj none (c ∷ cs) = some false
password_state dj (some op) (c ∷ cs) = some (dj.check_password (c ∷ cs) op.password)

-- `_require_current_password_correct`
require_current : Option Bool → Outcome (Unit {0})
require_current none = raised current_missing
require_current (some correct) = require correct incorrect_current

-- `operator.save(update_fields=...)`
pub save_row : User → List User → List User
save_row op [] = []
save_row op (u ∷ us) = if u.pk == op.pk then op ∷ save_row op us else u ∷ save_row op us

-- `filter(username=...).exclude(pk=...).exists()`
taken_by_other : Text → ℕ → List User → Bool
taken_by_other name pk [] = false
taken_by_other name pk (u ∷ us) =
    text_eq u.username name && not (u.pk == pk) || taken_by_other name pk us

rename : List User → Option Bool → Form → User → Outcome User
unfolding require_current taken_by_other
rename users correct form op =
    if is_set form.new_username && not (text_eq form.new_username op.username)
    then (do
      require_current correct
      require (not (taken_by_other form.new_username op.pk users)) username_taken
      saved (record op { username = form.new_username }))
    else saved op

set_new_password : Django → Option Bool → Form → User → Outcome User
unfolding require_current
set_new_password dj correct form op =
    if is_set form.new_pwd
    then (do
      require_current correct
      require (text_eq form.new_pwd form.new_pwd_confirm) mismatch
      require (dj.validate_password form.new_pwd op.username) weak
      saved (record op { password = dj.make_password form.new_pwd }))
    else saved op

-- Whether `changed_fields` is nonempty at the end.
is_changed : Form → User → Bool
is_changed form op =
    is_set form.new_username && not (text_eq form.new_username op.username) || is_set form.new_pwd

-- `_update_existing_operator`
pub update_existing : Django → List User → Option Bool → Form → User → Outcome (List User)
unfolding rename set_new_password is_changed
update_existing dj users correct form op = do
  renamed ← rename users correct form op
  changed ← set_new_password dj correct form renamed
  saved (if is_changed form op then save_row changed users else users)

-- `update_or_create(username=...)`, then `set_password` and `save`.
upsert : Django → Text → Text → List User → List User → List User
upsert dj name hash all_rows [] =
    record {
      pk = dj.next_pk all_rows;
      username = name;
      password = hash;
      is_active = true;
      is_staff = true;
      is_superuser = true;
    }
    ∷ []
upsert dj name hash all_rows (u ∷ us) =
    if text_eq u.username name
    then record u { password = hash; is_active = true; is_staff = true; is_superuser = true } ∷ us
    else u ∷ upsert dj name hash all_rows us

-- `_create_initial_operator`
pub create_initial : Django → List User → Form → Outcome (List User)
unfolding upsert
create_initial dj users form = do
  require (is_set form.new_username) must_provide_username
  require (is_set form.new_pwd) must_provide_password
  require (text_eq form.new_pwd form.new_pwd_confirm) mismatch
  require (dj.validate_password form.new_pwd form.new_username) weak
  saved (upsert dj form.new_username (dj.make_password form.new_pwd) users users)

-- The challenge of a change of backend, where an operator exists.
pub challenge : Form → Option Bool → Outcome (Unit {0})
challenge form correct =
    if text_eq form.new_auth_backend form.prev_auth_backend
    then saved tt
    else (do require (is_set form.current_pwd) current_missing; proved correct)
  where
    proved : Option Bool → Outcome (Unit {0})
    proved none = raised incorrect_current
    proved (some right) = require right incorrect_current

apply_for : Django → List User → Option User → Form → Option User → Outcome (List User)
unfolding other_session password_state challenge
apply_for dj users session form none =
    if text_eq form.new_auth_backend auth_basic then create_initial dj users form else saved users
apply_for dj users session form (some op) = do
  require (not (other_session session op)) other_operator
  challenge form (password_state dj (some op) form.current_pwd)
  if text_eq form.new_auth_backend auth_basic
      then update_existing dj users (password_state dj (some op) form.current_pwd) form op
      else saved users

-- `apply_auth_settings`: the rows of the `User` table after it, or its error.
pub apply_auth_settings : Django → List User → Option User → Form → Outcome (List User)
unfolding apply_for
apply_auth_settings dj users session form = do
  require (is_valid_backend form.new_auth_backend) unknown_backend
  apply_for dj users session form (persisted_operator users)

-- An argument of a view: Django's or DRF's request, or anything else.
pub record Request : Type 0 where
  pub authenticated : Bool
  pub method : Text
  pub hx_request : Option Text
  pub full_path : Text

pub data Argument : Type 0 where
  request : Request → Argument
  other : Argument

pub data Gated : Type 0 where
  run_view : Gated
  -- the redirect to the login page, with the path to come back to
  login : Option Text → Gated
  no_request : Gated

pub is_safe_login_next_source : Request → Bool
is_safe_login_next_source r =
    if not (text_eq r.method (codes "GET")) then false else not (is_some r.hx_request)

login_redirect : Request → Gated
login_redirect r =
    if not (is_safe_login_next_source r) then login none else login (some r.full_path)

pub first_request : List Argument → Option Request
first_request [] = none
first_request (request r ∷ rest) = some r
first_request (other ∷ rest) = first_request rest

gate : Option Request → Gated
unfolding login_redirect
gate none = no_request
gate (some r) = if r.authenticated then run_view else login_redirect r

-- `authorized`: what the decorated view does.
pub authorized : Text → List Argument → Gated
unfolding gate first_request
authorized auth_backend args =
    if not (is_set auth_backend) then run_view else gate (first_request args)

-- The throttle of the Basic-authentication warning; times in seconds.
pub record LogKey : Type 0 where
  pub username : Text
  pub client_ip : Text
  pub path : Text

abbrev pub basic_auth_log_ttl : ℕ
basic_auth_log_ttl = 3600

pub key_eq : LogKey → LogKey → Bool
key_eq a b =
    text_eq a.username b.username && (text_eq a.client_ip b.client_ip && text_eq a.path b.path)

-- `_basic_auth_log_seen.get(key)`, over the writes, the last one first.
expiry_of : LogKey → List (LogKey × ℕ) → Option ℕ
unfolding key_eq
expiry_of k [] = none
expiry_of k ((j, t) ∷ rest) = if key_eq j k then some t else expiry_of k rest

blocked : Option ℕ → ℕ → Bool
blocked none now = false
blocked (some expiry) now = ltb now expiry

pub should_log : LogKey → ℕ → List (LogKey × ℕ) → Bool × List (LogKey × ℕ)
unfolding expiry_of blocked
should_log k now seen =
    if blocked (expiry_of k seen) now
    then (false, seen)
    else (true, (k, now + basic_auth_log_ttl) ∷ seen)
