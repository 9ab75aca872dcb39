-- ===== src/Viewer/Output/Tail.antt =====
-- What the sink keeps: the same as if it had kept everything, in bounded room.
use mupitech_player.Prelude.{
  All, Bool-cases, List, Text, [], ap, append_assoc, append_nil, arith, inl, inr, le_cases, leb,
  length, length-append, ltb, refl, subst, suc, sym, true, zero, ℕ, ◌*◌, ◌++◌, ◌+◌, ◌-◌, ◌<◌, ◌∙◌,
  ◌∷◌, ◌≡◌, ◌≤◌,
}
use mupitech_player.Viewer.Output.{
  Buffer, Chunk, call, chunk_text, clip, drop, empty_buffer, feed, join_chunks, kept_text,
  last_chars, push_chunk, trim,
}

drop_zero : (s : Text) → drop 0 s ≡ s
unfolding drop
drop_zero [] = refl
drop_zero (c ∷ s) = refl

drop_at : (m n : ℕ) (s : Text) → m ≡ n → drop m s ≡ drop n s
drop_at m n s e = ap (λ i. drop i s) e

drop_append : (n : ℕ) (s t : Text) → n ≤ length s → drop n (s ++ t) ≡ drop n s ++ t
unfolding drop
drop_append zero [] t h = drop_zero t
drop_append zero (c ∷ s) t h = refl
drop_append (suc n) [] t h = ground (arith, h)
drop_append (suc n) (c ∷ s) t h = drop_append n s t (omega arith)

drop_beyond : (k n : ℕ) (s t : Text) → n ≡ length s + k → drop n (s ++ t) ≡ drop k t
unfolding drop
drop_beyond k n [] t e = ap (λ i. drop i t) (omega arith)
drop_beyond k zero (c ∷ s) t e = ground (arith, e)
drop_beyond k (suc n) (c ∷ s) t e = drop_beyond k n s t (omega arith)

drop-drop : (m n : ℕ) (s : Text) → drop m (drop n s) ≡ drop (n + m) s
unfolding drop
drop-drop m n [] = refl
drop-drop m zero (c ∷ s) = drop_at m (0 + m) (c ∷ s) (omega arith)
drop-drop m (suc n) (c ∷ s) =
    drop-drop m n s ∙ drop_at (suc (n + m)) (suc n + m) (c ∷ s) (omega arith)

length-drop : (n : ℕ) (s : Text) → length (drop n s) ≡ length s - n
unfolding drop
length-drop n [] = omega arith
length-drop zero (c ∷ s) = omega arith
length-drop (suc n) (c ∷ s) = omega (arith, length-drop n s)

-- The last n characters, none for 0.
pub tail : ℕ → Text → Text
tail n s = drop (length s - n) s

tail_all : (n : ℕ) (s : Text) → length s ≤ n → tail n s ≡ s
unfolding tail
tail_all n s h = ap (λ i. drop i s) (omega arith) ∙ drop_zero s

tail_append : (n : ℕ) (s t : Text) → n ≤ length t → tail n (s ++ t) ≡ tail n t
unfolding tail
tail_append n s t h =
    drop_beyond (length t - n) (length (s ++ t) - n) s t (omega (arith, length-append s t))

length-tail : (n : ℕ) (s : Text) → n ≤ length s → length (tail n s) ≡ n
unfolding tail
length-tail n s h = omega (arith, length-drop (length s - n) s)

tail_right : (n : ℕ) (s t : Text) → tail n (s ++ tail n t) ≡ tail n (s ++ t)
tail_right n s t = elim (le_cases (length t) n) [
  | inl short ↦ ap (λ x. tail n (s ++ x)) (tail_all n t short)
  | inr long ↦
      tail_append n s (tail n t) (omega (arith, length-tail n t long))
      ∙ tail_all n (tail n t) (omega (arith, length-tail n t long))
      ∙ sym (tail_append n s t long)
]

tail_left : (n : ℕ) (s t : Text) → tail n (tail n s ++ t) ≡ tail n (s ++ t)
unfolding tail
tail_left n s t = elim (le_cases (length s) n) [
  | inl short ↦ ap (λ x. tail n (x ++ t)) (tail_all n s short)
  | inr long ↦
      let k = length s - n in
      let rest = length-append (drop k s) t in
      let whole = length-append s t in
      let left : length (drop k s) ≡ n = omega (arith, length-drop k s) in
      ap (λ x. drop (length (drop k s ++ t) - n) x) (sym (drop_append k s t (omega arith)))
      ∙ drop-drop (length (drop k s ++ t) - n) k (s ++ t)
      ∙ drop_at (k + (length (drop k s ++ t) - n)) (length (s ++ t) - n) (s ++ t)
          (omega (arith, rest, whole, left))
]

last_chars-tail : (n : ℕ) (s : Text) → 0 < n → last_chars n s ≡ tail n s
unfolding last_chars tail
last_chars-tail zero s h = ground (arith, h)
last_chars-tail (suc n) s h = refl

clip-tail : (n : ℕ) (s : Text) → 0 < n → clip n s ≡ tail n s
unfolding clip
clip-tail n s h = elim (Bool-cases (ltb n (length s))) [
  | inl long ↦ rw long (last_chars-tail n s h)
  | inr short ↦ rw short (sym (tail_all n s (ground (arith, short))))
]

length-clip : (n : ℕ) (s : Text) → 0 < n → length (clip n s) ≤ n
length-clip n s h = elim (le_cases (length s) n) [
  | inl short ↦ rw (clip-tail n s h, tail_all n s short) short
  | inr long ↦ rw (clip-tail n s h) (omega (arith, length-tail n s long))
]

join_append : (cs ds : List Text) → join_chunks (cs ++ ds) ≡ join_chunks cs ++ join_chunks ds
unfolding join_chunks
join_append [] ds = refl
join_append (c ∷ cs) ds =
    ap (λ x. c ++ x) (join_append cs ds) ∙ sym (append_assoc c (join_chunks cs) (join_chunks ds))

-- The sink at one time: what has been printed, and what is kept of it.
record Keeps (n : ℕ) (history : Text) (chunks : List Text) (size : ℕ) : Type 0 where
  same_tail : tail n (join_chunks chunks) ≡ tail n history
  counted : size ≡ length (join_chunks chunks)
  short : All (λ c. length c ≤ n) chunks

drop-Keeps :
    (n size : ℕ) (history c : Text) (chunks : List Text)
    → leb (n + length c) size ≡ true
    → Keeps n history (c ∷ chunks) size
    → Keeps n history chunks (size - length c)
unfolding join_chunks
drop-Keeps n size history c chunks drops k =
    let split = length-append c (join_chunks chunks) in
    let long : n ≤ length (join_chunks chunks) = ground (arith, split, k.counted, drops) in
    record {
      same_tail = sym (tail_append n c (join_chunks chunks) long) ∙ k.same_tail;
      counted = omega (arith, split, k.counted);
      short = k.short.1;
    }

trim-Keeps :
    (n size : ℕ) (history : Text) (chunks : List Text)
    → 0 < n
    → Keeps n history chunks size
    → Keeps n history (trim n size chunks).0 (trim n size chunks).1
      × ((trim n size chunks).1 < 2 * n)
unfolding trim join_chunks
trim-Keeps n size history [] pos_n k = (k, ground (arith, k.counted))
trim-Keeps n size history (c ∷ chunks) pos_n k = elim (Bool-cases (leb (n + length c) size)) [
  | inl drops ↦ rw drops (
      trim-Keeps n (size - length c) history chunks pos_n
        (drop-Keeps n size history c chunks drops k))
  | inr stays ↦ rw stays (k, ground (arith, stays, k.short.0))
]

All-push :
    (P : Text → Type 0) (chunks : List Text) (c : Text)
    → All P chunks
    → P c
    → All P (chunks ++ c ∷ [])
All-push P [] c h here = (here, tt)
All-push P (d ∷ chunks) c (first_holds, h) here = (first_holds, All-push P chunks c h here)

-- A chunk arrives, already cut to its own tail.
push_chunk-Keeps :
    (n size : ℕ) (history c : Text) (chunks : List Text)
    → 0 < n
    → Keeps n history chunks size
    → Keeps n (history ++ c) (chunks ++ clip n c ∷ []) (size + length (clip n c))
unfolding join_chunks
push_chunk-Keeps n size history c chunks pos_n k =
    let joined =
      join_append chunks (clip n c ∷ [])
      ∙ ap (λ x. join_chunks chunks ++ x) (append_nil (clip n c)) in
    record {
      same_tail =
          ap (tail n) joined
          ∙ ap (λ x. tail n (join_chunks chunks ++ x)) (clip-tail n c pos_n)
          ∙ tail_right n (join_chunks chunks) c
          ∙ sym (tail_left n (join_chunks chunks) c)
          ∙ ap (λ x. tail n (x ++ c)) k.same_tail
          ∙ tail_left n history c;
      counted = omega (
        arith,
        k.counted,
        ap (λ x. length x) joined,
        length-append (join_chunks chunks) (clip n c),
      );
      short = All-push (λ x. length x ≤ n) chunks (clip n c) k.short (length-clip n c pos_n);
    }

-- All that was printed, decoded.
pub printed : (List ℕ → Text) → List Chunk → Text
printed decode [] = []
printed decode (chunk ∷ chunks) = chunk_text decode chunk ++ printed decode chunks

call-Keeps :
    (decode : List ℕ → Text) (chunk : Chunk) (b : Buffer) (history : Text)
    → 0 < b.maxlen
    → Keeps b.maxlen history b.chunks b.size
    → let b' = call decode chunk b in
      Keeps b.maxlen (history ++ chunk_text decode chunk) b'.chunks b'.size
      × (b'.size < 2 * b.maxlen)
      × (b'.maxlen ≡ b.maxlen)
unfolding call push_chunk
call-Keeps decode chunk b history pos_n k =
    let (kept, bound) =
      trim-Keeps b.maxlen (b.size + length (clip b.maxlen (chunk_text decode chunk)))
        (history ++ chunk_text decode chunk)
        (b.chunks ++ clip b.maxlen (chunk_text decode chunk) ∷ []) pos_n
        (push_chunk-Keeps b.maxlen b.size history (chunk_text decode chunk) b.chunks pos_n k) in
    (kept, bound, refl)

feed-Keeps :
    (decode : List ℕ → Text) (chunks : List Chunk) (b : Buffer) (history : Text)
    → 0 < b.maxlen
    → Keeps b.maxlen history b.chunks b.size
    → b.size < 2 * b.maxlen
    → let b' = feed decode chunks b in
      Keeps b.maxlen (history ++ printed decode chunks) b'.chunks b'.size
      × (b'.size < 2 * b.maxlen)
      × (b'.maxlen ≡ b.maxlen)
unfolding feed printed call push_chunk
feed-Keeps decode [] b history pos_n k bound =
    (subst (λ x. Keeps b.maxlen x b.chunks b.size) (sym (append_nil history)) k, bound, refl)
feed-Keeps decode (chunk ∷ chunks) b history pos_n k bound =
    let (kept, bound', same) = call-Keeps decode chunk b history pos_n k in
    let (done, small, rest) =
      feed-Keeps decode chunks (call decode chunk b) (history ++ chunk_text decode chunk) pos_n kept
        bound' in
    (
      subst
          (λ x.
            Keeps b.maxlen x (feed decode chunks (call decode chunk b)).chunks
              (feed decode chunks (call decode chunk b)).size)
          (append_assoc history (chunk_text decode chunk) (printed decode chunks)) done,
      small,
      rest,
    )

-- A sink with room for `maxlen` characters, more than none, shows at any time the last `maxlen`
-- characters of all that was printed, all of it while there are no more; the size that it counts is
-- that of the chunks it holds, and stays below twice `maxlen`.
pub kept_text-feed :
    (decode : List ℕ → Text) (maxlen : ℕ) (chunks : List Chunk)
    → 0 < maxlen
    → let b = feed decode chunks (empty_buffer maxlen) in
      (kept_text b ≡ last_chars maxlen (printed decode chunks))
      × (length (printed decode chunks) ≤ maxlen → kept_text b ≡ printed decode chunks)
      × (b.size ≡ length (join_chunks b.chunks))
      × (b.size < 2 * maxlen)
unfolding kept_text empty_buffer
kept_text-feed decode maxlen chunks pos_n =
    let b = feed decode chunks (empty_buffer maxlen) in
    let start : Keeps maxlen [] [] 0 = record { same_tail = refl; counted = refl; short = tt } in
    let (kept, small, same) =
      feed-Keeps decode chunks (empty_buffer maxlen) [] pos_n start (omega arith) in
    let shown : last_chars b.maxlen (join_chunks b.chunks) ≡ tail maxlen (printed decode chunks) =
      ap (λ n. last_chars n (join_chunks b.chunks)) same
      ∙ last_chars-tail maxlen (join_chunks b.chunks) pos_n
      ∙ kept.same_tail in
    (
      shown ∙ sym (last_chars-tail maxlen (printed decode chunks) pos_n),
      λ short. shown ∙ tail_all maxlen (printed decode chunks) short,
      kept.counted,
      small,
    )
