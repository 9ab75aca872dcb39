-- ===== src/Auth/Examples.antt =====
-- A table and forms, and the theorems about `auth.py` applied to them.
use mathlib.Core.List.{Memᴰ}
use mupitech_player.Prelude.{
  List, [], arith, codes, false, length, ltb, none, refl, some, text_eq, true, ℕ, ◌+◌, ◌∷◌, ◌≡◌,
  ◌≢◌, ◌⊎◌,
}
use mupitech_player.Auth.{
  Django, Form, LogKey, Request, User, apply_auth_settings, auth_basic, authorized, challenge,
  create_initial, incorrect_current, is_safe_login_next_source, login, other, other_session,
  password_state, persisted_operator, raised, request, save_row, saved, should_log, update_existing,
  upsert,
}
use mupitech_player.Auth.Account.{Proved, apply_auth_settings_guarded, apply_auth_settings_session}
use mupitech_player.Auth.Lockout.{FirstAdmin, LogsIn, RunBy, apply_auth_settings_has_operator}
use mupitech_player.Auth.Operator.{Rekeyed, apply_auth_settings-Rekeyed}
use mupitech_player.Auth.Throttle.{log_all, should_log_throttled}

-- A hash is the password behind a mark, and every password of two characters is accepted.
abbrev django : Django
django = record {
  check_password = λ p hash. text_eq (b'#' ∷ p) hash;
  make_password = λ p. b'#' ∷ p;
  validate_password = λ p name. ltb 1 (length p);
  next_pk = λ users. length users + 1;
}

abbrev operator : User
operator = record {
  pk = 1;
  username = codes "op";
  password = codes "#old";
  is_active = true;
  is_staff = true;
  is_superuser = true;
}

abbrev recovery : User
recovery = record operator { pk = 2; username = codes "admin" }

abbrev table : List User
table = operator ∷ recovery ∷ []

-- Enable Basic authentication with a new name and password.
abbrev rekey : Form
rekey = record {
  new_auth_backend = auth_basic;
  current_pwd = codes "old";
  new_username = codes "boss";
  new_pwd = codes "new!";
  new_pwd_confirm = codes "new!";
  prev_auth_backend = [];
}

abbrev rekeyed : List User
rekeyed = record operator { username = codes "boss"; password = codes "#new!" } ∷ recovery ∷ []

auth_code : Unit {0}
unfolding apply_auth_settings update_existing create_initial persisted_operator text_eq save_row
    upsert
auth_code = tt

rekey_saves : apply_auth_settings django table (some operator) rekey ≡ saved rekeyed
unfolding auth_code other_session password_state challenge
rekey_saves = refl

wrong_password :
    apply_auth_settings django table none (record rekey { current_pwd = codes "x" })
    ≡ raised incorrect_current
unfolding auth_code other_session password_state challenge
wrong_password = refl

operator_of_table : persisted_operator table ≡ some operator
unfolding auth_code
operator_of_table = refl

apply_auth_settings_guarded_example :
    ((rekeyed ≡ table) ⊎ Proved django rekey operator)
    × (text_eq rekey.new_auth_backend rekey.prev_auth_backend ≡ false
        → Proved django rekey operator)
apply_auth_settings_guarded_example =
    apply_auth_settings_guarded django table rekeyed (some operator) rekey operator
      operator_of_table rekey_saves

apply_auth_settings_session_example : ◌≡◌ {A = ℕ} 1 1
apply_auth_settings_session_example =
    apply_auth_settings_session django table rekeyed operator rekey operator operator_of_table
      rekey_saves

apply_auth_settings-Rekeyed_example :
    (changed : User) × Rekeyed django rekey operator changed
    × Memᴰ changed rekeyed
    × ((u : User) → Memᴰ u table → u.pk ≢ 1 → Memᴰ u rekeyed)
apply_auth_settings-Rekeyed_example =
    apply_auth_settings-Rekeyed django table rekeyed (some operator) rekey operator
      operator_of_table refl rekey_saves

abbrev created : User
created = record operator { username = codes "boss"; password = codes "#new!" }

first_saves : apply_auth_settings django [] none rekey ≡ saved (created ∷ [])
unfolding auth_code
first_saves = refl

RunBy-operator : RunBy table (some operator)
RunBy-operator = RunBy.admin (FirstAdmin.here refl refl refl)

apply_auth_settings_has_operator_example :
    (u : User) × LogsIn django rekey (some operator) rekeyed u
    × (op : User) × FirstAdmin op rekeyed
    × (persisted_operator rekeyed ≡ some op)
apply_auth_settings_has_operator_example =
    apply_auth_settings_has_operator django table rekeyed (some operator) rekey (some operator)
      RunBy-operator refl rekey_saves

abbrev visitor : Request
visitor = record {
  authenticated = false;
  method = codes "GET";
  hx_request = none;
  full_path = codes "/settings";
}

visitor_sent_to_login :
    authorized auth_basic (other ∷ request visitor ∷ []) ≡ login (some (codes "/settings"))
unfolding authorized is_safe_login_next_source text_eq
visitor_sent_to_login = refl

abbrev caller : LogKey
caller = record { username = codes "op"; client_ip = codes "10.0.0.2"; path = codes "/api" }

should_log_throttled_example :
    (should_log caller 5000 (log_all ((caller, 200) ∷ []) (should_log caller 100 []).1)).0 ≡ true
unfolding should_log
should_log_throttled_example =
    should_log_throttled caller 100 5000 ((caller, 200) ∷ []) [] refl (omega arith)
