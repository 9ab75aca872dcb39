-- ===== src/Viewer/Output.antt =====
-- `_BoundedWebviewOutput`: the sink that keeps the tail of what the web view prints. The lock that
-- guards it makes each call one step. The decoding of bytes is a parameter.
pub mod Tail
use mupitech_player.Prelude.{
  List, Text, [], if◌then◌else◌, leb, length, ltb, suc, zero, ℕ, ◌*◌, ◌++◌, ◌+◌, ◌-◌, ◌∷◌,
}

-- What `sh` hands over: a `str`, or bytes.
pub data Chunk : Type 0 where
  decoded : Text → Chunk
  raw : List ℕ → Chunk

abbrev pub webview_output_buffer_chars : ℕ
webview_output_buffer_chars = 64 * 1024

pub record Buffer : Type 0 where
  pub maxlen : ℕ
  pub chunks : List Text
  pub size : ℕ

-- `__init__`
pub empty_buffer : ℕ → Buffer
empty_buffer maxlen = record { maxlen = maxlen; chunks = []; size = 0 }

-- `s[n:]`
pub drop : ℕ → Text → Text
drop n [] = []
drop zero (c ∷ s) = c ∷ s
drop (suc n) (c ∷ s) = drop n s

-- `s[-n:]`, which is all of `s` for 0.
pub last_chars : ℕ → Text → Text
unfolding drop
last_chars zero s = s
last_chars (suc n) s = drop (length s - suc n) s

-- `chunk.decode('utf-8', errors='replace')`, where it is needed.
pub chunk_text : (List ℕ → Text) → Chunk → Text
chunk_text decode (decoded s) = s
chunk_text decode (raw bytes) = decode bytes

-- The loop that drops the oldest chunks: the rest alone is at least `maxlen` long.
trim : ℕ → ℕ → List Text → List Text × ℕ
trim maxlen size [] = ([], size)
trim maxlen size (c ∷ chunks) =
    if leb (maxlen + length c) size
    then trim maxlen (size - length c) chunks
    else (c ∷ chunks, size)

push_chunk : Text → Buffer → Buffer
unfolding trim
push_chunk s b =
    let (chunks, size) = trim b.maxlen (b.size + length s) (b.chunks ++ s ∷ []) in
    record b { chunks = chunks; size = size }

clip : ℕ → Text → Text
unfolding last_chars
clip maxlen s = if ltb maxlen (length s) then last_chars maxlen s else s

-- `__call__`
pub call : (List ℕ → Text) → Chunk → Buffer → Buffer
unfolding push_chunk clip chunk_text
call decode chunk b = push_chunk (clip b.maxlen (chunk_text decode chunk)) b

-- `''.join(chunks)`
pub join_chunks : List Text → Text
join_chunks [] = []
join_chunks (c ∷ chunks) = c ++ join_chunks chunks

-- `text`
pub kept_text : Buffer → Text
unfolding last_chars join_chunks
kept_text b = last_chars b.maxlen (join_chunks b.chunks)

-- The buffer after a run of calls.
pub feed : (List ℕ → Text) → List Chunk → Buffer → Buffer
unfolding call
feed decode [] b = b
feed decode (chunk ∷ chunks) b = feed decode chunks (call decode chunk b)
