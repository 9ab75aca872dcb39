-- ===== src/Viewer/Launch/Attempts.antt =====
-- The retries of `load_browser`: what its result says of the spawns, and how long it waits.
use mupitech_player.Prelude.{
  All, Bool, Bool-cases, List, Text, [], ap, arith, false, inl, inr, length, max, min, refl, suc,
  true, zero, ℕ, ◌*◌, ◌+◌, ◌<◌, ◌∙◌, ◌≡◌, ◌≤◌,
}
use mupitech_player.Viewer.Launch.{
  Loaded, Spawn, after_spawn, binary_missing, device_gone, gave_up, launch_error, load_browser,
  load_from, loaded, no_binary, registered, slept,
}

-- The spawn failed, and another one may help.
unfoldable pub Retries : (ℕ → Spawn) → (Text → Bool) → ℕ → Type 0
Retries spawn vanished i = (m : Text) × (spawn i ≡ launch_error m) × (vanished m ≡ false)

-- Each of the n attempts from the given one may be followed by another.
unfoldable pub RetriesAll : (ℕ → Spawn) → (Text → Bool) → ℕ → ℕ → Type 0
RetriesAll spawn vanished attempt zero = Unit
RetriesAll spawn vanished attempt (suc n) =
    Retries spawn vanished attempt × RetriesAll spawn vanished (suc attempt) n

-- Why the loop ended after n retries, of at most `left` attempts.
unfoldable pub Ends : (ℕ → Spawn) → (Text → Bool) → ℕ → ℕ → ℕ → Loaded → Type 0
Ends spawn vanished left attempt n (loaded k) =
    (k ≡ attempt + n) × (n < left) × (spawn (attempt + n) ≡ registered)
Ends spawn vanished left attempt n no_binary = (n < left) × (spawn (attempt + n) ≡ binary_missing)
Ends spawn vanished left attempt n (device_gone m) =
    (n < left) × (spawn (attempt + n) ≡ launch_error m) × (vanished m ≡ true)
Ends spawn vanished left attempt n gave_up = n ≡ left

shift : (attempt n : ℕ) → attempt + suc n ≡ suc attempt + n
shift attempt n = omega arith

shift_zero : (attempt : ℕ) → attempt + 0 ≡ attempt
shift_zero attempt = omega arith

module _ (spawn : ℕ → Spawn) (vanished : Text → Bool) (cap : ℕ) (at_least : 1 ≤ cap) where
  unfoldable pub Explains : ℕ → ℕ → Loaded × List ℕ → Type 0
  unfolding RetriesAll Ends
  Explains left attempt (result, sleeps) =
      (n : ℕ) × RetriesAll spawn vanished attempt n
      × Ends spawn vanished left attempt n result
      × (length sleeps ≤ n)
      × (length sleeps < max 1 left)
      × All (λ s. (1 ≤ s) × (s ≤ cap)) sleeps

  Ends-suc :
      (left attempt n : ℕ) (result : Loaded)
      → Ends spawn vanished left (suc attempt) n result
      → Ends spawn vanished (suc left) attempt (suc n) result
  unfolding Ends
  Ends-suc left attempt n (loaded k) (same, room, ok) =
      (omega (arith, same), omega (arith, room), ap spawn (shift attempt n) ∙ ok)
  Ends-suc left attempt n no_binary (room, absent) =
      (omega (arith, room), ap spawn (shift attempt n) ∙ absent)
  Ends-suc left attempt n (device_gone m) (room, failed, gone) =
      (omega (arith, room), ap spawn (shift attempt n) ∙ failed, gone)
  Ends-suc left attempt n gave_up h = omega (arith, h)

  explain_slept :
      (left attempt backoff : ℕ) (result : Loaded × List ℕ)
      → 1 ≤ backoff
      → backoff ≤ cap
      → Retries spawn vanished attempt
      → Explains left (suc attempt) result
      → Explains (suc left) attempt (slept left backoff result)
  unfolding Explains slept
  explain_slept zero attempt backoff (result, sleeps) low high failed
        (n, before, why, short, few, sizes) =
      (suc n, (failed, before), Ends-suc zero attempt n result why, omega arith, omega arith, sizes)
  explain_slept (suc left) attempt backoff (result, sleeps) low high failed
        (n, before, why, short, few, sizes) =
      (
        suc n,
        (failed, before),
        Ends-suc (suc left) attempt n result why,
        omega arith,
        omega arith,
        ((low, high), sizes),
      )

  explain_spawn :
      (left attempt : ℕ) (rest : Loaded × List ℕ) (s : Spawn)
      → spawn attempt ≡ s
      → (Retries spawn vanished attempt → Explains (suc left) attempt rest)
      → Explains (suc left) attempt (after_spawn vanished attempt rest s)
  unfolding Explains after_spawn Retries
  explain_spawn left attempt rest registered e later = (
    0,
    tt,
    (omega arith, omega arith, ap spawn (shift_zero attempt) ∙ e),
    omega arith,
    omega arith,
    tt,
  )
  explain_spawn left attempt rest binary_missing e later =
      (0, tt, (omega arith, ap spawn (shift_zero attempt) ∙ e), omega arith, omega arith, tt)
  explain_spawn left attempt rest (launch_error m) e later = elim (Bool-cases (vanished m)) [
    | inl gone ↦ rw gone (
      0,
      tt,
      (omega arith, ap spawn (shift_zero attempt) ∙ e, gone),
      omega arith,
      omega arith,
      tt,
    )
    | inr there ↦ rw there (later (m, e, there))
  ]

  nothing : (attempt : ℕ) → Explains 0 attempt (gave_up, [])
  unfolding Explains
  nothing attempt = (0, tt, refl, omega arith, omega arith, tt)

  load_from-Explains :
      (left attempt backoff : ℕ)
      → 1 ≤ backoff
      → backoff ≤ cap
      → Explains left attempt (load_from spawn vanished cap left attempt backoff)
  unfolding load_from
  load_from-Explains zero attempt backoff low high = nothing attempt
  load_from-Explains (suc left) attempt backoff low high =
      let rest = load_from spawn vanished cap left (suc attempt) (min (backoff * 2) cap) in
      let explained =
        load_from-Explains left (suc attempt) (min (backoff * 2) cap) (omega arith) (omega arith) in
      explain_spawn left attempt (slept left backoff rest) (spawn attempt) refl
        (λ failed. explain_slept left attempt backoff rest low high failed explained)

-- With m the attempts allowed, at least 1, and c the cap of the waits, at least 1: some n attempts
-- failed, each in a way that a retry may help; then attempt n + 1 of the m started the web view, or
-- found no binary, or found the display device gone, or n is m and the loop gave up. It waited at
-- most n times and less than m times, between 1 and c seconds each.
pub load_browser-Explains :
    (spawn : ℕ → Spawn) (vanished : Text → Bool) (max_attempts backoff_cap : ℕ)
    → let (result, sleeps) = load_browser spawn vanished max_attempts backoff_cap in
      (n : ℕ) × RetriesAll spawn vanished 1 n
      × Ends spawn vanished (max 1 max_attempts) 1 n result
      × (length sleeps ≤ n)
      × (length sleeps < max 1 max_attempts)
      × All (λ s. (1 ≤ s) × (s ≤ max 1 backoff_cap)) sleeps
unfolding load_browser Explains
load_browser-Explains spawn vanished max_attempts backoff_cap =
    let (n, before, why, short, few, sizes) =
      load_from-Explains spawn vanished (max 1 backoff_cap) (omega arith) (max 1 max_attempts) 1 1
        (omega arith) (omega arith) in
    (n, before, why, short, omega (arith, few), sizes)
