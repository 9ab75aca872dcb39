-- ===== src/Auth/Throttle.antt =====
-- The throttle of the Basic-authentication warning over a run of calls.
use mupitech_player.Prelude.{
  All, Bool-cases, List, Text, [], ap, arith, inl, inr, leb, some, text_eq, text_eq_refl,
  text_eq_sound, true, ℕ, ◌+◌, ◌<◌, ◌∙◌, ◌∷◌, ◌≡◌,
}
use mupitech_player.Auth.{LogKey, basic_auth_log_ttl, expiry_of, key_eq, should_log}

key_eq_refl : (k : LogKey) → key_eq k k ≡ true
unfolding key_eq
key_eq_refl k =
    ground (arith, text_eq_refl k.username, text_eq_refl k.client_ip, text_eq_refl k.path)

text_eq-sym : (s t : Text) → text_eq s t ≡ true → text_eq t s ≡ true
text_eq-sym s t h = rw (text_eq_sound s t h) (text_eq_refl t)

-- The memory after a run of calls.
pub log_all : List (LogKey × ℕ) → List (LogKey × ℕ) → List (LogKey × ℕ)
log_all [] seen = seen
log_all ((k, t) ∷ calls) seen = log_all calls (should_log k t seen).1

key_eq_sound : (j k : LogKey) → key_eq j k ≡ true → j ≡ k
unfolding key_eq
key_eq_sound j k h = ground (
  arith,
  h,
  text_eq_sound j.username k.username,
  text_eq_sound j.client_ip k.client_ip,
  text_eq_sound j.path k.path,
)

call_keeps :
    (k j : LogKey) (expiry t : ℕ) (seen : List (LogKey × ℕ))
    → expiry_of k seen ≡ some expiry
    → t < expiry
    → expiry_of k (should_log j t seen).1 ≡ some expiry
unfolding should_log
call_keeps k j expiry t seen h early = elim (Bool-cases (key_eq j k)) [
  | inl same ↦
      let known : expiry_of j seen ≡ some expiry =
        ap (λ x. expiry_of x seen) (key_eq_sound j k same) ∙ h in
      ground (arith, known, h, early)
  | inr apart ↦ ground (arith, apart, h)
]

-- Calls before the expiry leave it alone, whatever their keys.
expiry_kept :
    (k : LogKey) (expiry : ℕ) (calls seen : List (LogKey × ℕ))
    → expiry_of k seen ≡ some expiry
    → All (λ c. c.1 < expiry) calls
    → expiry_of k (log_all calls seen) ≡ some expiry
unfolding log_all
expiry_kept k expiry [] seen h early = h
expiry_kept k expiry ((j, t) ∷ calls) seen h early =
    expiry_kept k expiry calls (should_log j t seen).1 (call_keeps k j expiry t seen h early.0)
      early.1

remembered :
    (k : LogKey) (t : ℕ) (seen : List (LogKey × ℕ))
    → (should_log k t seen).0 ≡ true
    → expiry_of k (should_log k t seen).1 ≡ some (t + basic_auth_log_ttl)
unfolding should_log
remembered k t seen logged = ground (arith, logged, key_eq_refl k)

answered :
    (k : LogKey) (expiry now : ℕ) (seen : List (LogKey × ℕ))
    → expiry_of k seen ≡ some expiry
    → (should_log k now seen).0 ≡ leb expiry now
unfolding should_log
answered k expiry now seen h = ground (arith, h)

-- After a call that logged at time `t`, and any run of calls (of any keys) at times before the end
-- of the hour, a call with the same key logs exactly if the hour is over.
pub should_log_throttled :
    (k : LogKey) (t t' : ℕ) (calls seen : List (LogKey × ℕ))
    → (should_log k t seen).0 ≡ true
    → All (λ c. c.1 < t + basic_auth_log_ttl) calls
    → (should_log k t' (log_all calls (should_log k t seen).1)).0 ≡ leb (t + basic_auth_log_ttl) t'
should_log_throttled k t t' calls seen logged early =
    answered k (t + basic_auth_log_ttl) t' (log_all calls (should_log k t seen).1) (
      expiry_kept k (t + basic_auth_log_ttl) calls (should_log k t seen).1
        (remembered k t seen logged) early)
