-- ===== src/Auth/Account.antt =====
-- `apply_auth_settings`: who may change the account, what changes, and what is refused.
use mupitech_player.Prelude.{
  Bool, List, Option, Text, arith, false, inl, inr, some, text_eq, true, ◌≡◌, ◌⊎◌,
}
use mupitech_player.Auth.{
  Django, Form, User, apply_auth_settings, apply_for, auth_basic, challenge, is_set,
  is_valid_backend, other_session, password_state, persisted_operator, saved, update_existing,
}

-- The password that the form gives is the operator's.
abbrev pub Proved : Django → Form → User → Type 0
Proved dj form op =
    (is_set form.current_pwd ≡ true) × (dj.check_password form.current_pwd op.password ≡ true)

proved_state :
    (dj : Django) (op : User) (pwd : Text)
    → password_state dj (some op) pwd ≡ some true
    → (is_set pwd ≡ true) × (dj.check_password pwd op.password ≡ true)
unfolding password_state
proved_state dj op pwd h = ground arith

update_existing_guarded :
    (dj : Django) (users users' : List User) (correct : Option Bool) (form : Form) (op : User)
    → update_existing dj users correct form op ≡ saved users'
    → (users' ≡ users) ⊎ (correct ≡ some true)
unfolding update_existing
update_existing_guarded dj users users' correct form op h = ground arith

-- What a successful save has passed, where an operator exists.
pub apply_auth_settings_steps :
    (dj : Django) (users users' : List User) (session : Option User) (form : Form) (op : User)
    → persisted_operator users ≡ some op
    → apply_auth_settings dj users session form ≡ saved users'
    → (is_valid_backend form.new_auth_backend ≡ true)
      × (other_session session op ≡ false)
      × (challenge form (password_state dj (some op) form.current_pwd) ≡ saved tt)
      × ((text_eq form.new_auth_backend auth_basic ≡ true)
            × (update_existing dj users (password_state dj (some op) form.current_pwd) form op
                ≡ saved users')
          ⊎ (text_eq form.new_auth_backend auth_basic ≡ false) × (users' ≡ users))
unfolding apply_auth_settings apply_for
apply_auth_settings_steps dj users users' session form op p h = ground (arith, p, h)

challenge_passed :
    (form : Form) (correct : Option Bool)
    → challenge form correct ≡ saved tt
    → text_eq form.new_auth_backend form.prev_auth_backend ≡ false
    → correct ≡ some true
unfolding challenge
challenge_passed form correct h e = ground arith

-- With an operator account in the table, a successful save leaves the table as it is, or the form
-- gave that account's current password. If it changes the backend, it always gave that password.
pub apply_auth_settings_guarded :
    (dj : Django) (users users' : List User) (session : Option User) (form : Form) (op : User)
    → persisted_operator users ≡ some op
    → apply_auth_settings dj users session form ≡ saved users'
    → ((users' ≡ users) ⊎ Proved dj form op)
      × (text_eq form.new_auth_backend form.prev_auth_backend ≡ false → Proved dj form op)
apply_auth_settings_guarded dj users users' session form op p h =
    let (valid, session_ok, challenged, step) =
      apply_auth_settings_steps dj users users' session form op p h in
    let c = password_state dj (some op) form.current_pwd in
    (
      elim step [
        | inl (basic, updated) ↦ elim (update_existing_guarded dj users users' c form op updated) [
          | inl same ↦ inl same
          | inr right ↦ inr (proved_state dj op form.current_pwd right)
        ]
        | inr (plain, same) ↦ inl same
      ],
      λ moved. proved_state dj op form.current_pwd (challenge_passed form c challenged moved),
    )

-- A successful save with an operator in the table came from no session or from the operator's own.
pub apply_auth_settings_session :
    (dj : Django) (users users' : List User) (session_user : User) (form : Form) (op : User)
    → persisted_operator users ≡ some op
    → apply_auth_settings dj users (some session_user) form ≡ saved users'
    → session_user.pk ≡ op.pk
unfolding other_session
apply_auth_settings_session dj users users' u form op p h =
    let (valid, session_ok, challenged, step) =
      apply_auth_settings_steps dj users users' (some u) form op p h in
    ground (arith, session_ok)
