-- ===== src/Channel/Backoff.antt =====
-- The waits of the subscriber between two attempts.
use mupitech_player.Prelude.{
  All, Bool, List, Option, Text, [], ap, append_assoc, append_nil, arith, false, length, min, not,
  refl, suc, sym, true, zero, ℕ, ◌&&◌, ◌*◌, ◌++◌, ◌+◌, ◌||◌, ◌∙◌, ◌∷◌, ◌≡◌, ◌≤◌,
}
use mupitech_player.Channel.{
  Subscriber, Turn, back_off, ended, initial_retry_delay, lost, max_retry_delay, refused, run,
  serve, turn,
}

-- The wait after n failures in a row: doubled each time, up to the bound.
unfoldable pub wait_after : ℕ → ℕ
wait_after zero = initial_retry_delay
wait_after (suc n) = min (2 * wait_after n) max_retry_delay

-- The next n waits, where k failures in a row came before.
unfoldable pub waits : ℕ → ℕ → List ℕ
waits k zero = []
waits k (suc n) = wait_after k ∷ waits (suc k) n

-- Turns in which the connection is refused. Each flag says whether the write of the readiness flag
-- after that failure gets through to Redis.
pub refusals : List Bool → List Turn
refusals [] = []
refusals (clears ∷ rest) = refused clears ∷ refusals rest

-- Whether one of the writes gets through.
pub any_clears : List Bool → Bool
any_clears [] = false
any_clears (clears ∷ rest) = clears || any_clears rest

wait_bounds : (n : ℕ) → (1 ≤ wait_after n) × (wait_after n ≤ max_retry_delay)
unfolding wait_after
wait_bounds zero = omega arith
wait_bounds (suc n) = ground (arith, wait_bounds n)

next :
    (k : ℕ) (b : Bool) (s : Subscriber)
    → s.delay ≡ wait_after k
    → (back_off b s).delay ≡ wait_after (suc k)
unfolding back_off wait_after
next k b s e = ground (arith, e)

suc_plus : (k n : ℕ) → suc k + n ≡ k + suc n
suc_plus k n = omega arith

waits_bounds : (k n : ℕ) → All (λ t. (1 ≤ t) × (t ≤ max_retry_delay)) (waits k n)
unfolding waits
waits_bounds k zero = tt
waits_bounds k (suc n) = (wait_bounds k, waits_bounds (suc k) n)

refused_ready :
    (commands : List (Text × ℕ)) (topic : Text) (flags : List Bool) (s : Subscriber)
    → (run commands topic (refusals flags) s).ready ≡ (s.ready && not (any_clears flags))
unfolding run turn back_off refusals any_clears
refused_ready commands topic [] s = ground arith
refused_ready commands topic (true ∷ flags) s =
    let rest = refused_ready commands topic flags (back_off true s) in ground (arith, rest)
refused_ready commands topic (false ∷ flags) s =
    let rest = refused_ready commands topic flags (back_off false s) in ground (arith, rest)

run_refused :
    (commands : List (Text × ℕ)) (topic : Text) (k : ℕ) (flags : List Bool) (s : Subscriber)
    → s.delay ≡ wait_after k
    → (let after = run commands topic (refusals flags) s in
        (after.delay ≡ wait_after (k + length flags))
        × (after.sleeps ≡ s.sleeps ++ waits k (length flags))
        × (after.calls ≡ s.calls))
unfolding run turn back_off refusals waits
run_refused commands topic k [] s e = (ground (arith, e), sym (append_nil s.sleeps), refl)
run_refused commands topic k (b ∷ flags) s e =
    let (d, sl, c) = run_refused commands topic (suc k) flags (back_off b s) (next k b s e) in
    (
      d ∙ ap wait_after (suc_plus k (length flags)),
      sl
          ∙ append_assoc s.sleeps (s.delay ∷ []) (waits (suc k) (length flags))
          ∙ ap (λ t. s.sleeps ++ t ∷ waits (suc k) (length flags)) e,
      c,
    )

-- Whatever came before: a turn in which the subscription succeeds and messages arrive raises the flag
-- and resets the backoff, whether the stream then ends or the connection is lost, and calls the same
-- handlers either way. When the connection then fails in turn after turn, the waits that this adds
-- are 1, 2, 4, 8, 16 and then 30 seconds each, one for each failure, the loss included. Every wait
-- is between 1 and 30 seconds, and the failures call no handler. The flag stays up until the write
-- that clears it after a failure gets through, and is down from then on.
pub run-waits :
    (commands : List (Text × ℕ)) (topic : Text) (s : Subscriber) (messages : List (Option Text))
    (clears : Bool) (flags : List Bool)
    → (let served = turn commands topic (ended messages) s in
        let after = run commands topic (ended messages ∷ refusals flags) s in
        let after_loss = run commands topic (lost messages clears ∷ refusals flags) s in
        (served.ready ≡ true)
        × (after.sleeps ≡ s.sleeps ++ waits 0 (length flags))
        × (after.calls ≡ served.calls)
        × (after.ready ≡ not (any_clears flags))
        × (after_loss.sleeps ≡ s.sleeps ++ waits 0 (suc (length flags)))
        × (after_loss.calls ≡ served.calls)
        × (after_loss.ready ≡ not (any_clears (clears ∷ flags)))
        × All (λ t. (1 ≤ t) × (t ≤ max_retry_delay)) (waits 0 (suc (length flags))))
unfolding run turn serve wait_after refusals
run-waits commands topic s messages clears flags =
    let served = serve commands topic messages s in
    let (d, sl, c) = run_refused commands topic 0 flags served refl in
    let (d', sl', c') = run_refused commands topic 0 (clears ∷ flags) served refl in
    (
      refl,
      sl,
      c,
      refused_ready commands topic flags served,
      sl',
      c',
      refused_ready commands topic (clears ∷ flags) served,
      waits_bounds 0 (suc (length flags)),
    )
