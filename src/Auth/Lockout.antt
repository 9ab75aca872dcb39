-- ===== src/Auth/Lockout.antt =====
-- `apply_auth_settings` and who can log in after it.
use mathlib.Core.List.{Memᴰ}
use mupitech_player.Prelude.{
  Bool-cases, List, Option, Text, [], ap, arith, false, if◌then◌else◌, inl, inr, none, refl, some,
  subst, sym, true, ◌&&◌, ◌∙◌, ◌∷◌, ◌≡◌,
}
use mupitech_player.Auth.{
  Django, Form, User, apply_auth_settings, auth_basic, first, is_set, or_first, persisted_operator,
  saved,
}
use mupitech_player.Auth.Operator.{apply_auth_settings-Rekeyed, apply_auth_settings_first}

-- The first row of the table that is an active superuser.
pub data FirstAdmin (op : User) : List User → Type 0 where
  here :
      {u : User} {users : List User}
      → u ≡ op
      → op.is_active ≡ true
      → op.is_superuser ≡ true
      → FirstAdmin op (u ∷ users)
  behind :
      {u : User} {users : List User}
      → (u.is_active && u.is_superuser) ≡ false
      → FirstAdmin op users
      → FirstAdmin op (u ∷ users)

-- The account that runs the device: none in a new one, else the first active superuser.
pub data RunBy : List User → Option User → Type 0 where
  nobody : RunBy [] none
  admin : {op : User} {users : List User} → FirstAdmin op users → RunBy users (some op)

-- The name and the hash that a save leaves: the form's, or the old ones where it leaves them empty.
abbrev pub name_after : Form → Option User → Text
name_after form none = form.new_username
name_after form (some op) = if is_set form.new_username then form.new_username else op.username

abbrev pub hash_after : Django → Form → Option User → Text
hash_after dj form none = dj.make_password form.new_pwd
hash_after dj form (some op) =
    if is_set form.new_pwd then dj.make_password form.new_pwd else op.password

-- An account of the table that can log in and is an operator.
pub record LogsIn (dj : Django) (form : Form) (old : Option User) (users : List User) (u : User)
    : Type 0 where
  pub stored : Memᴰ u users
  pub name : u.username ≡ name_after form old
  pub hash : u.password ≡ hash_after dj form old
  pub active : u.is_active ≡ true
  pub superuser : u.is_superuser ≡ true

first_both :
    (op : User) (users : List User)
    → FirstAdmin op users
    → (first (λ u. u.is_active && u.is_superuser) users ≡ some op)
      × (op.is_active ≡ true)
      × (op.is_superuser ≡ true)
unfolding first
first_both op [] h = elim h [ ]
first_both op (u ∷ users) (FirstAdmin.here same active superuser) =
    let flags : (u.is_active && u.is_superuser) ≡ true =
      ap (λ (x : User). x.is_active && x.is_superuser) same ∙ ground (arith, active, superuser) in
    (rw flags (ap some same), active, superuser)
first_both op (u ∷ users) (FirstAdmin.behind unfit h) =
    let (e, active, superuser) = first_both op users h in (rw unfit e, active, superuser)

persisted_operator-FirstAdmin :
    (op : User) (users : List User) → FirstAdmin op users → persisted_operator users ≡ some op
unfolding persisted_operator or_first
persisted_operator-FirstAdmin op users h = ground (arith, (first_both op users h).0)

-- A table with an active superuser has a first one.
found_admin :
    (u : User) (users : List User)
    → Memᴰ u users
    → u.is_active ≡ true
    → u.is_superuser ≡ true
    → (op : User) × FirstAdmin op users
found_admin u [] m active superuser = elim m [ ]
found_admin u (v ∷ users) (Memᴰ.head same) active superuser =
    (u, FirstAdmin.here (sym same) active superuser)
found_admin u (v ∷ users) (Memᴰ.tail m) active superuser =
    elim (Bool-cases (v.is_active && v.is_superuser)) [
      | inl both ↦ (v, FirstAdmin.here refl (ground (arith, both)) (ground (arith, both)))
      | inr unfit ↦
          let (op, h) = found_admin u users m active superuser in (op, FirstAdmin.behind unfit h)
    ]

logged_in :
    (dj : Django) (users' : List User) (form : Form) (old : Option User) (u : User)
    → LogsIn dj form old users' u
    → (u : User) × LogsIn dj form old users' u
      × (op : User) × FirstAdmin op users'
      × (persisted_operator users' ≡ some op)
logged_in dj users' form old u account =
    let (op, h) = found_admin u users' account.stored account.active account.superuser in
    (u, account, op, h, persisted_operator-FirstAdmin op users' h)

-- No lockout: after a successful save with Basic authentication, in an empty table or in one with an
-- active superuser, the table holds an active superuser with the form's name and the hash of the
-- form's password (where the form leaves them empty, those of the first active superuser before), and
-- the operator that the next save goes by is an active superuser.
pub apply_auth_settings_has_operator :
    (dj : Django) (users users' : List User) (session : Option User) (form : Form)
    (old : Option User)
    → RunBy users old
    → form.new_auth_backend ≡ auth_basic
    → apply_auth_settings dj users session form ≡ saved users'
    → (u : User) × LogsIn dj form old users' u
      × (op : User) × FirstAdmin op users'
      × (persisted_operator users' ≡ some op)
apply_auth_settings_has_operator dj [] users' session form none RunBy.nobody basic h =
    let (u, e, name, hash, active, superuser, a4, a5, a6, a7) =
      apply_auth_settings_first dj users' session form basic h in
    logged_in dj users' form none u record {
      stored = subst (λ l. Memᴰ u l) (sym e) (Memᴰ.head refl);
      name = name;
      hash = hash;
      active = active;
      superuser = superuser;
    }
apply_auth_settings_has_operator dj (u ∷ us) users' session form none absent basic h =
    elim absent [ ]
apply_auth_settings_has_operator dj users users' session form (some op) (RunBy.admin run) basic h =
    let (e, active, superuser) = first_both op users run in
    let (changed, r, m, others) =
      apply_auth_settings-Rekeyed dj users users' session form op
        (persisted_operator-FirstAdmin op users run) basic h in
    logged_in dj users' form (some op) changed record {
      stored = m;
      name = r.name;
      hash = r.hash;
      active = r.active ∙ active;
      superuser = r.superuser ∙ superuser;
    }
