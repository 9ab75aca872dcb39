-- ===== src/Prelude/Python.antt =====
-- Methods of Python's `str` on code points, and a `dict` with text keys in insertion order.
use Prim.Native.Nat.{ℕ, ◌+◌, ◌≤◌}
use mathlib.Core.Path.{◌≡◌}
use mathlib.Core.Bool.{Bool, true, false, ◌&&◌, ◌||◌}
use mathlib.Core.Option.{Option, none, some}
use mathlib.Core.List.{List, [], ◌∷◌}
use native.Mathlib.Omega.{arith}
use mupitech_player.Prelude.Tests.{ltb, leb, ◌==◌, if◌then◌else◌}
use mupitech_player.Prelude.Lists.{length}
use mupitech_player.Prelude.Strings.{Text, text_eq}

abbrev pub between : ℕ → ℕ → ℕ → Bool
between lo hi c = leb lo c && leb c hi

-- `c.isspace()`
unfoldable pub is_space : ℕ → Bool
is_space c =
    between 9 13 c
    || (between 28 32 c
        || (c == 133
            || (c == 160
                || (c == 5760
                    || (between 8192 8202 c
                        || (between 8232 8233 c || (c == 8239 || (c == 8287 || c == 12288))))))))

pub space_10 : (c : ℕ) → (c == 10) ≡ true → is_space c ≡ true
unfolding is_space
space_10 c h = ground (arith, h)

unfoldable pub lstrip : Text → Text
lstrip [] = []
lstrip (c ∷ cs) = let rest = lstrip cs in if is_space c then rest else c ∷ cs

abbrev pub is_empty : Text → Bool
is_empty [] = true
is_empty (c ∷ cs) = false

unfoldable pub rstrip : Text → Text
rstrip [] = []
rstrip (c ∷ cs) = let rest = rstrip cs in if is_empty rest && is_space c then [] else c ∷ rest

-- `s.strip()`
unfoldable pub strip : Text → Text
unfolding lstrip rstrip
strip s = rstrip (lstrip s)

-- Where `splitlines` ends a line (a CR LF pair ends one line, and here an empty one after it).
abbrev pub is_line_break : ℕ → Bool
is_line_break c = between 10 13 c || (between 28 30 c || (c == 133 || between 8232 8233 c))

-- The length of `s.encode('utf-8')`; `none` where that raises, on a surrogate.
abbrev pub byte_length_of : ℕ → Option ℕ
byte_length_of c =
    if ltb c 128
    then some 1
    else if ltb c 2048
    then some 2
    else if between 0xD800 0xDFFF c
    then none
    else if ltb c 65536
    then some 3
    else some 4

abbrev plus : Option ℕ → Option ℕ → Option ℕ
plus (some a) (some b) = some (a + b)
plus _ _ = none

unfoldable pub byte_length : Text → Option ℕ
byte_length [] = some 0
byte_length (c ∷ cs) = plus (byte_length_of c) (byte_length cs)

abbrev pub TextDict : Type 0
TextDict = List (Text × Text)

-- `d[k] = v`: a key that is there keeps its place.
unfoldable pub dict_set : Text → Text → TextDict → TextDict
dict_set k v [] = (k, v) ∷ []
dict_set k v ((j, w) ∷ d) = if text_eq j k then (j, v) ∷ d else (j, w) ∷ dict_set k v d

pub length-dict_set : (k v : Text) (d : TextDict) → length (dict_set k v d) ≤ length d + 1
unfolding dict_set
length-dict_set k v [] = omega arith
length-dict_set k v ((j, w) ∷ d) = ground (arith, length-dict_set k v d)
