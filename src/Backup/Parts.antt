-- ===== src/Backup/Parts.antt =====
-- The parts of a name against the parts that `_safe_tar_member` looks at, where each backslash is a
-- slash.
use mupitech_player.Prelude.{
  ==_iff, Bool, Bool-cases, List, Text, [], any, ap, arith, false, inl, inr, onto_first, refl,
  split_on, subst, sym, text_eq, true, ℕ, ◌==◌, ◌∙◌, ◌∷◌, ◌≡◌,
}
use mupitech_player.Backup.{first_part, is_bad_part, with_slashes}

-- Whether a part holds a backslash.
unfoldable pub has_backslash : Text → Bool
has_backslash s = any (λ c. c == 92) s

unfoldable pub rest_parts : List Text → List Text
rest_parts [] = []
rest_parts (p ∷ parts) = parts

-- The parts of a name against those with the backslashes replaced: no later part goes bad, and a
-- first part without a backslash is the same.
pub record Refines (parts replaced : List Text) : Type 0 where
  pub later :
      any is_bad_part (rest_parts replaced) ≡ false → any is_bad_part (rest_parts parts) ≡ false
  pub whole : replaced ≡ first_part replaced ∷ rest_parts replaced
  pub same : has_backslash (first_part parts) ≡ false → first_part parts ≡ first_part replaced

pub is_bad_part-backslash : (p : Text) → has_backslash p ≡ true → is_bad_part p ≡ false
unfolding is_bad_part has_backslash text_eq
is_bad_part-backslash [] h = cc
is_bad_part-backslash (c ∷ []) h = ground (arith, h)
is_bad_part-backslash (c ∷ d ∷ []) h = ground (arith, h)
is_bad_part-backslash (c ∷ d ∷ e ∷ s) h = ground (arith, h)

pub any_cons :
    (p : Text) (parts : List Text)
    → any is_bad_part (p ∷ parts) ≡ false
    → (is_bad_part p ≡ false) × (any is_bad_part parts ≡ false)
any_cons p parts h = (ground (arith, h), ground (arith, h))

pub Refines-first :
    (parts replaced : List Text)
    → Refines parts replaced
    → any is_bad_part replaced ≡ false
    → is_bad_part (first_part parts) ≡ false
Refines-first parts replaced r h =
    let (good, rest) =
      any_cons (first_part replaced) (rest_parts replaced)
        (ap (any is_bad_part) (sym r.whole) ∙ h) in
    elim (Bool-cases (has_backslash (first_part parts))) [
      | inl there ↦ is_bad_part-backslash (first_part parts) there
      | inr clean ↦ ap is_bad_part (r.same clean) ∙ good
    ]

pub Refines-good :
    (parts replaced : List Text)
    → Refines parts replaced
    → any is_bad_part replaced ≡ false
    → any is_bad_part parts ≡ false
unfolding first_part rest_parts
Refines-good [] replaced r h = refl
Refines-good (p ∷ parts) replaced r h =
    let good = Refines-first (p ∷ parts) replaced r h in
    let (first, rest) =
      any_cons (first_part replaced) (rest_parts replaced)
        (ap (any is_bad_part) (sym r.whole) ∙ h) in
    ground (arith, good, r.later rest)

Refines-onto :
    (c : ℕ) (parts replaced : List Text)
    → Refines parts replaced
    → (c == 92) ≡ false
    → Refines (onto_first c parts) (onto_first c replaced)
unfolding first_part rest_parts has_backslash
Refines-onto c [] [] r e = record { later = λ h. h; same = λ h. refl; whole = refl }
Refines-onto c [] (q ∷ replaced) r e = record {
  later = λ h. refl;
  same = λ h. ap (λ x. c ∷ x) (r.same refl);
  whole = refl;
}
Refines-onto c (p ∷ parts) [] r e = cc (r.whole)
Refines-onto c (p ∷ parts) (q ∷ replaced) r e = record {
  later = r.later;
  same = λ h. ap (λ x. c ∷ x) (r.same (ground (arith, h)));
  whole = refl;
}

Refines-slash :
    (parts replaced : List Text) → Refines parts replaced → Refines ([] ∷ parts) ([] ∷ replaced)
unfolding first_part rest_parts
Refines-slash parts replaced r = record {
  later = Refines-good parts replaced r;
  same = λ h. refl;
  whole = refl;
}

Refines-backslash :
    (parts replaced : List Text)
    → Refines parts replaced
    → Refines (onto_first 92 parts) ([] ∷ replaced)
unfolding first_part rest_parts has_backslash
Refines-backslash [] replaced r = record { later = λ h. refl; same = λ h. cc; whole = refl }
Refines-backslash (p ∷ parts) replaced r = record {
  later = λ h. (any_cons p parts (Refines-good (p ∷ parts) replaced r h)).1;
  same = λ h. cc;
  whole = refl;
}

-- What a split of one more character refines.
abbrev pub RefinesAt : Text → Type 0
RefinesAt s = Refines (split_on 47 s) (split_on 47 (with_slashes s))

pub split_on-Refines : (s : Text) → RefinesAt s
unfolding split_on with_slashes rest_parts first_part
split_on-Refines [] = record { later = λ h. refl; same = λ h. refl; whole = refl }
split_on-Refines (c ∷ s) = elim (Bool-cases (c == 47)) [
  | inl slash ↦
      subst (λ x. RefinesAt (x ∷ s)) (sym ((==_iff c 47).0 slash))
        (Refines-slash (split_on 47 s) (split_on 47 (with_slashes s)) (split_on-Refines s))
  | inr plain ↦ elim (Bool-cases (c == 92)) [
    | inl back ↦
        subst (λ x. RefinesAt (x ∷ s)) (sym ((==_iff c 92).0 back))
          (Refines-backslash (split_on 47 s) (split_on 47 (with_slashes s)) (split_on-Refines s))
    | inr clean ↦
        rw (plain, clean)
          (rw plain (
            Refines-onto c (split_on 47 s) (split_on 47 (with_slashes s)) (split_on-Refines s)
              clean))
  ]
]
