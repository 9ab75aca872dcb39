-- ===== src/Prelude/Split.antt =====
-- Laws of `strip`, `partition`, `split` and `join` on code points.
use Prim.Native.Nat.{ℕ}
use mathlib.Core.Path.{◌≡◌, refl, ap, ◌∙◌}
use mathlib.Core.Logic.{◌≢◌, inl, inr}
use mathlib.Core.Bool.{false, ◌&&◌}
use mathlib.Core.List.{List, [], ◌∷◌, ◌++◌}
use native.Mathlib.Omega.{arith}
use mupitech_player.Prelude.Tests.{◌==◌, Bool-cases}
use mupitech_player.Prelude.Lists.{All}
use mupitech_player.Prelude.Strings.{Text, partition, onto_first, split_on, join_with}
use mupitech_player.Prelude.Python.{is_space, is_empty, lstrip, rstrip, strip}

-- The character does not occur.
unfoldable pub Free : ℕ → Text → Type 0
Free sep s = All (λ c. c ≢ sep) s

pub partition-append :
    (sep : ℕ) (s rest : Text) → Free sep s → partition sep (s ++ sep ∷ rest) ≡ (s, rest)
unfolding partition Free
partition-append sep [] rest h = ground arith
partition-append sep (c ∷ s) rest (apart, h) =
    let e = partition-append sep s rest h in ground (arith, apart, e)

pub partition_absent : (sep : ℕ) (s : Text) → Free sep s → partition sep s ≡ (s, [])
unfolding partition Free
partition_absent sep [] h = refl
partition_absent sep (c ∷ s) (apart, h) =
    let e = partition_absent sep s h in ground (arith, apart, e)

pub Free-partition : (sep : ℕ) (s : Text) → Free sep (partition sep s).0
unfolding partition Free
Free-partition sep [] = tt
Free-partition sep (c ∷ s) = elim (Bool-cases (c == sep)) [
  | inl here ↦ rw here tt
  | inr apart ↦ rw apart ((λ e. apart_ne apart e), Free-partition sep s)
]
  where
    apart_ne : {c sep : ℕ} → (c == sep) ≡ false → c ≡ sep → ⊥
    apart_ne h e = ground (arith, h, e)

lstrip_head : (s t : Text) (c : ℕ) → lstrip s ≡ c ∷ t → is_space c ≡ false
unfolding lstrip
lstrip_head [] t c h = cc
lstrip_head (d ∷ s) t c h = elim (Bool-cases (is_space d)) [
  | inl blank ↦ lstrip_head s t c (ground (arith, blank, h))
  | inr plain ↦ ground (arith, plain, h)
]

rstrip_again : (s : Text) → rstrip (rstrip s) ≡ rstrip s
unfolding rstrip
rstrip_again [] = refl
rstrip_again (c ∷ s) = ground (arith, rstrip_again s)

lstrip-rstrip :
    (s : Text)
    → ((c : ℕ) (t : Text) → s ≡ c ∷ t → is_space c ≡ false)
    → lstrip (rstrip s) ≡ rstrip s
unfolding lstrip rstrip
lstrip-rstrip [] h = refl
lstrip-rstrip (c ∷ s) h = let plain = h c s refl in ground (arith, plain)

pub strip_again : (s : Text) → strip (strip s) ≡ strip s
unfolding strip
strip_again s =
    ap rstrip (lstrip-rstrip (lstrip s) (λ c t e. lstrip_head s t c e)) ∙ rstrip_again (lstrip s)

All-lstrip : (P : ℕ → Type 0) (s : Text) → All P s → All P (lstrip s)
unfolding lstrip
All-lstrip P [] h = tt
All-lstrip P (c ∷ s) (here, h) = elim (Bool-cases (is_space c)) [
  | inl blank ↦ rw blank (All-lstrip P s h)
  | inr plain ↦ rw plain (here, h)
]

All-rstrip : (P : ℕ → Type 0) (s : Text) → All P s → All P (rstrip s)
unfolding rstrip
All-rstrip P [] h = tt
All-rstrip P (c ∷ s) (here, h) = elim (Bool-cases (is_empty (rstrip s) && is_space c)) [
  | inl blank ↦ rw blank tt
  | inr plain ↦ rw plain (here, All-rstrip P s h)
]

pub Free-strip : (sep : ℕ) (s : Text) → Free sep s → Free sep (strip s)
unfolding Free strip
Free-strip sep s h = All-rstrip (λ c. c ≢ sep) (lstrip s) (All-lstrip (λ c. c ≢ sep) s h)

pub split_on_parts : (sep : ℕ) (s : Text) → All (Free sep) (split_on sep s)
unfolding split_on Free
split_on_parts sep [] = (tt, tt)
split_on_parts sep (c ∷ s) = elim (Bool-cases (c == sep)) [
  | inl here ↦ rw here (tt, split_on_parts sep s)
  | inr apart ↦
      rw apart (go (split_on sep s) (split_on_parts sep s) (λ e. ground (arith, apart, e)))
]
  where
    go :
        {c sep : ℕ} (parts : List Text)
        → All (Free sep) parts
        → c ≢ sep
        → All (Free sep) (onto_first c parts)
    go [] h ne = ((ne, tt), tt)
    go (p ∷ parts) (here, h) ne = ((ne, here), h)

split_on-append :
    (sep : ℕ) (s rest : Text) → Free sep s → split_on sep (s ++ sep ∷ rest) ≡ s ∷ split_on sep rest
unfolding split_on Free
split_on-append sep [] rest h = ground (arith)
split_on-append sep (c ∷ s) rest (apart, h) =
    let e = split_on-append sep s rest h in ground (arith, apart, e)

split_on_single : (sep : ℕ) (s : Text) → Free sep s → split_on sep s ≡ s ∷ []
unfolding split_on Free
split_on_single sep [] h = refl
split_on_single sep (c ∷ s) (apart, h) = let e = split_on_single sep s h in ground (arith, apart, e)

-- Parts without the separator come back.
pub split_on-join_with :
    (sep : ℕ) (s : Text) (parts : List Text)
    → All (Free sep) (s ∷ parts)
    → split_on sep (join_with sep (s ∷ parts)) ≡ s ∷ parts
unfolding join_with
split_on-join_with sep s [] (h, more) = split_on_single sep s h
split_on-join_with sep s (t ∷ parts) (h, more) =
    split_on-append sep s (join_with sep (t ∷ parts)) h
    ∙ ap (λ x. s ∷ x) (split_on-join_with sep t parts more)
