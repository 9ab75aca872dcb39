-- ===== src/Auth/Operator.antt =====
-- The operator's row: who it is, and what a successful save does to it and to the other rows.
use mathlib.Core.List.{Memᴰ}
use mupitech_player.Prelude.{
  Bool, Bool-cases, List, Option, Text, [], ap, arith, false, if◌then◌else◌, inl, inr, none, refl,
  some, subst, sym, text_eq, text_eq_refl, text_eq_sound, true, ◌&&◌, ◌==◌, ◌∙◌, ◌∷◌, ◌≡◌, ◌≢◌,
}
use mupitech_player.Auth.{
  Django, Form, Outcome, User, apply_auth_settings, apply_for, auth_basic, create_initial, first,
  is_changed, is_set, or_first, password_state, persisted_operator, raised, rename, save_row, saved,
  set_new_password, update_existing, ◌>>=◌,
}
use mupitech_player.Auth.Account.{apply_auth_settings_steps}

first-Mem : (p : User → Bool) (us : List User) (u : User) → first p us ≡ some u → Memᴰ u us
unfolding first
first-Mem p [] u h = absurd (cc)
first-Mem p (v ∷ vs) u h = elim (Bool-cases (p v)) [
  | inl e ↦ let same : v ≡ u = ground (arith, e, h) in Memᴰ.head (sym same)
  | inr e ↦ Memᴰ.tail (first-Mem p vs u (ground (arith, e, h)))
]

or_first-Mem :
    (o : Option User) (us : List User) (u : User)
    → ((v : User) → o ≡ some v → Memᴰ v us)
    → or_first o us ≡ some u
    → Memᴰ u us
unfolding or_first
or_first-Mem (some v) us u f h = f u h
or_first-Mem none [] u f h = absurd (cc)
or_first-Mem none (v ∷ vs) u f h = let same : v ≡ u = cc in Memᴰ.head (sym same)

persisted_operator-Mem : (us : List User) (op : User) → persisted_operator us ≡ some op → Memᴰ op us
unfolding persisted_operator
persisted_operator-Mem us op h =
    or_first-Mem (first (λ u. u.is_active && u.is_superuser) us) us op
      (λ v e. first-Mem (λ u. u.is_active && u.is_superuser) us v e) h

save_row-Mem : (op u : User) (us : List User) → Memᴰ u us → u.pk ≢ op.pk → Memᴰ u (save_row op us)
unfolding save_row
save_row-Mem op u [] m h = elim m [ ]
save_row-Mem op u (v ∷ vs) (Memᴰ.head e) h =
    let apart : (v.pk == op.pk) ≡ false = ground (arith, ap (λ (x : User). x.pk) e, h) in
    rw apart (Memᴰ.head e)
save_row-Mem op u (v ∷ vs) (Memᴰ.tail m) h = elim (Bool-cases (v.pk == op.pk)) [
  | inl e ↦ rw e (Memᴰ.tail (save_row-Mem op u vs m h))
  | inr e ↦ rw e (Memᴰ.tail (save_row-Mem op u vs m h))
]

-- The saved row stands in the table, where a row with its key stood.
save_row-Mem_self :
    (op old : User) (us : List User) → Memᴰ old us → old.pk ≡ op.pk → Memᴰ op (save_row op us)
unfolding save_row
save_row-Mem_self op old [] m h = elim m [ ]
save_row-Mem_self op old (v ∷ vs) (Memᴰ.head e) h =
    let same : (v.pk == op.pk) ≡ true = ground (arith, ap (λ (x : User). x.pk) e, h) in
    rw same (Memᴰ.head refl)
save_row-Mem_self op old (v ∷ vs) (Memᴰ.tail m) h = elim (Bool-cases (v.pk == op.pk)) [
  | inl e ↦ rw e (Memᴰ.head refl)
  | inr e ↦ rw e (Memᴰ.tail (save_row-Mem_self op old vs m h))
]

-- The row that a successful `update_existing` writes: the operator's, with the new name and
-- password if the form has them, and with its flags as they were; the new password is confirmed and
-- accepted.
pub record Rekeyed (dj : Django) (form : Form) (op changed : User) : Type 0 where
  pub key : changed.pk ≡ op.pk
  pub name :
      changed.username ≡ (if is_set form.new_username then form.new_username else op.username)
  pub hash :
      changed.password
      ≡ (if is_set form.new_pwd then dj.make_password form.new_pwd else op.password)
  pub active : changed.is_active ≡ op.is_active
  pub superuser : changed.is_superuser ≡ op.is_superuser
  pub confirmed : is_set form.new_pwd ≡ true → text_eq form.new_pwd form.new_pwd_confirm ≡ true
  pub accepted :
      is_set form.new_pwd ≡ true → dj.validate_password form.new_pwd changed.username ≡ true

renamed_lem :
    (users : List User) (correct : Option Bool) (form : Form) (op renamed : User)
    → rename users correct form op ≡ saved renamed
    → (renamed.pk ≡ op.pk)
      × (renamed.username ≡ (if is_set form.new_username then form.new_username else op.username))
      × (renamed.password ≡ op.password)
      × (renamed.is_active ≡ op.is_active)
      × (renamed.is_superuser ≡ op.is_superuser)
unfolding rename
renamed_lem users correct form op renamed h =
    let same_name = text_eq_sound form.new_username op.username in
    (
      ground (arith, h),
      ground (arith, h, same_name),
      ground (arith, h),
      ground (arith, h),
      ground (arith, h),
    )

repassworded_lem :
    (dj : Django) (correct : Option Bool) (form : Form) (op changed : User)
    → set_new_password dj correct form op ≡ saved changed
    → (changed.pk ≡ op.pk)
      × (changed.username ≡ op.username)
      × (changed.password
          ≡ (if is_set form.new_pwd then dj.make_password form.new_pwd else op.password))
      × (changed.is_active ≡ op.is_active)
      × (changed.is_superuser ≡ op.is_superuser)
      × (is_set form.new_pwd ≡ true
          → (text_eq form.new_pwd form.new_pwd_confirm ≡ true)
            × (dj.validate_password form.new_pwd changed.username ≡ true))
unfolding set_new_password
repassworded_lem dj correct form op changed h = (
  ground (arith, h),
  ground (arith, h),
  ground (arith, h),
  ground (arith, h),
  ground (arith, h),
  λ e. ground (arith, h, e),
)

bind_saved :
    {A B : Type 0} {step : A → Outcome B} {final : B} (start : Outcome A)
    → (start >>= step) ≡ saved final
    → (middle : A) × (start ≡ saved middle) × (step middle ≡ saved final)
bind_saved (raised e) run = cc
bind_saved (saved middle) run = (middle, refl, run)

unchanged :
    (dj : Django) (users : List User) (correct : Option Bool) (form : Form)
    (op renamed changed : User)
    → rename users correct form op ≡ saved renamed
    → set_new_password dj correct form renamed ≡ saved changed
    → is_changed form op ≡ false
    → changed ≡ op
unfolding rename set_new_password is_changed
unchanged dj users correct form op renamed changed h k e = ground (arith, h, k, e)

update_existing-Rekeyed :
    (dj : Django) (users users' : List User) (correct : Option Bool) (form : Form) (op : User)
    → Memᴰ op users
    → update_existing dj users correct form op ≡ saved users'
    → (changed : User) × Rekeyed dj form op changed
      × Memᴰ changed users'
      × ((u : User) → Memᴰ u users → u.pk ≢ op.pk → Memᴰ u users')
unfolding update_existing
update_existing-Rekeyed dj users users' correct form op m h =
    let (renamed, p, rest) = bind_saved (rename users correct form op) h in
    let (changed, q, last) = bind_saved (set_new_password dj correct form renamed) rest in
    let (key, name, hash, active, superuser) = renamed_lem users correct form op renamed p in
    let (key', name', hash', active', superuser', checks) =
      repassworded_lem dj correct form renamed changed q in
    let rekeyed : Rekeyed dj form op changed = record {
      key = key' ∙ key;
      name = name' ∙ name;
      hash =
          hash' ∙ ap (λ x. if is_set form.new_pwd then dj.make_password form.new_pwd else x) hash;
      active = active' ∙ active;
      superuser = superuser' ∙ superuser;
      confirmed = λ e. (checks e).0;
      accepted = λ e. (checks e).1;
    } in
    elim (Bool-cases (is_changed form op)) [
      | inl e ↦
          let saved : save_row changed users ≡ users' = ground (arith, e, last) in
          (
            changed,
            rekeyed,
            subst (λ l. Memᴰ changed l) saved
                (save_row-Mem_self changed op users m (sym rekeyed.key)),
            λ u k apart.
                subst (λ l. Memᴰ u l) saved
                  (save_row-Mem changed u users k (λ same. apart (same ∙ rekeyed.key))),
          )
      | inr e ↦
          let kept : users ≡ users' = ground (arith, e, last) in
          (
            changed,
            rekeyed,
            subst (λ l. Memᴰ changed l) kept
                (subst (λ x. Memᴰ x users)
                  (sym (unchanged dj users correct form op renamed changed p q e)) m),
            λ u k apart. subst (λ l. Memᴰ u l) kept k,
          )
    ]

-- A successful save of the form with Basic authentication, where an operator exists: the table
-- then holds the operator's row with the name and the password of the form (the old ones where the
-- form leaves them empty), as active and as much of a superuser as before; a new password was
-- confirmed and accepted; and every row with another key is still there.
pub apply_auth_settings-Rekeyed :
    (dj : Django) (users users' : List User) (session : Option User) (form : Form) (op : User)
    → persisted_operator users ≡ some op
    → form.new_auth_backend ≡ auth_basic
    → apply_auth_settings dj users session form ≡ saved users'
    → (changed : User) × Rekeyed dj form op changed
      × Memᴰ changed users'
      × ((u : User) → Memᴰ u users → u.pk ≢ op.pk → Memᴰ u users')
apply_auth_settings-Rekeyed dj users users' session form op p basic h =
    let (valid, session_ok, challenged, step) =
      apply_auth_settings_steps dj users users' session form op p h in
    let c = password_state dj (some op) form.current_pwd in
    elim step [
      | inl (_, updated) ↦
          update_existing-Rekeyed dj users users' c form op (persisted_operator-Mem users op p)
            updated
      | inr (plain, same) ↦ absurd (not_basic form.new_auth_backend basic plain)
    ]
  where
    not_basic : (b : Text) → b ≡ auth_basic → text_eq b auth_basic ≡ false → ⊥
    not_basic b e f = cc (text_eq_refl auth_basic, ap (λ x. text_eq x auth_basic) e)

-- The first account: with an empty table, a successful save with Basic authentication leaves one
-- row, an active superuser with the form's name and the hash of its password, and the password
-- was confirmed and accepted.
pub apply_auth_settings_first :
    (dj : Django) (users' : List User) (session : Option User) (form : Form)
    → form.new_auth_backend ≡ auth_basic
    → apply_auth_settings dj [] session form ≡ saved users'
    → (u : User) × (users' ≡ u ∷ [])
      × (u.username ≡ form.new_username)
      × (u.password ≡ dj.make_password form.new_pwd)
      × (u.is_active ≡ true)
      × (u.is_superuser ≡ true)
      × (is_set form.new_username ≡ true)
      × (is_set form.new_pwd ≡ true)
      × (text_eq form.new_pwd form.new_pwd_confirm ≡ true)
      × (dj.validate_password form.new_pwd form.new_username ≡ true)
unfolding apply_auth_settings apply_for create_initial persisted_operator or_first first
apply_auth_settings_first dj users' session form basic h = (
  record {
    pk = dj.next_pk [];
    username = form.new_username;
    password = dj.make_password form.new_pwd;
    is_active = true;
    is_staff = true;
    is_superuser = true;
  },
  ground (arith, h, chosen),
  refl,
  refl,
  refl,
  refl,
  ground (arith, h, chosen),
  ground (arith, h, chosen),
  ground (arith, h, chosen),
  ground (arith, h, chosen),
)
  where
    chosen : text_eq form.new_auth_backend auth_basic ≡ true
    chosen = ap (λ x. text_eq x auth_basic) basic ∙ text_eq_refl auth_basic
