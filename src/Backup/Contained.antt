-- ===== src/Backup/Contained.antt =====
-- Where the extracted members end up, by the parts of their names alone.
use mupitech_player.Prelude.{
  All, Bool, Bool-cases, List, Option, Text, [], any, ap, arith, codes, false, if◌then◌else◌, inl,
  inr, is_empty, length, none, not, refl, some, split_on, text_eq, text_eq_sound, true, ◌&&◌, ◌++◌,
  ◌||◌, ◌∙◌, ◌∷◌, ◌≡◌, ◌≤◌,
}
use mupitech_player.Backup.{
  Member, Recovery, after_member, all_present, broken_off, directories, extract_members, first_part,
  is_bad_part, is_one_of, legacy_directories, names_of, no_home, recover_archive, recovered,
  safe_tar_member, with_slashes, wrong_archive,
}
use mupitech_player.Backup.Parts.{
  Refines-first, Refines-good, any_cons, has_backslash, rest_parts, split_on-Refines,
}

-- `os.path.normpath`, one part at a time, on a stack of parts.
pub enter : List Text → Text → List Text
enter stack p =
    if is_empty p || text_eq p (codes ".")
    then stack
    else if text_eq p (codes "..")
    then rest_parts stack
    else p ∷ stack

pub walk : List Text → List Text → List Text
unfolding enter
walk stack [] = stack
walk stack (p ∷ parts) = walk (enter stack p) parts

enter_here : (stack : List Text) (p : Text) → text_eq p (codes ".") ≡ true → enter stack p ≡ stack
unfolding enter
enter_here stack p h = ground (arith, h)

enter_deeper :
    (stack : List Text) (p : Text)
    → is_bad_part p ≡ false
    → text_eq p (codes ".") ≡ false
    → enter stack p ≡ p ∷ stack
unfolding enter is_bad_part
enter_deeper stack p good name = ground (arith, good, name)

-- Parts that are not bad only go deeper.
walk_deeper :
    (parts home below : List Text)
    → any is_bad_part parts ≡ false
    → (deeper : List Text) × (walk (below ++ home) parts ≡ deeper ++ home)
      × (length below ≤ length deeper)
unfolding walk
walk_deeper [] home below h = (below, refl, omega arith)
walk_deeper (p ∷ parts) home below h =
    let (good, rest_good) = any_cons p parts h in
    elim (Bool-cases (text_eq p (codes "."))) [
      | inl here ↦
          let (deeper, e, more) = walk_deeper parts home below rest_good in
          (deeper, ap (λ st. walk st parts) (enter_here (below ++ home) p here) ∙ e, more)
      | inr name ↦
          let (deeper, e, more) = walk_deeper parts home (p ∷ below) rest_good in
          (
            deeper,
            ap (λ st. walk st parts) (enter_deeper (below ++ home) p good name) ∙ e,
            omega (arith, more),
          )
    ]

-- A first part that is no `.` leads strictly deeper.
walk_strictly :
    (parts home : List Text)
    → any is_bad_part parts ≡ false
    → is_bad_part (first_part parts) ≡ false
    → text_eq (first_part parts) (codes ".") ≡ false
    → (deeper : List Text) × (walk home parts ≡ deeper ++ home) × (1 ≤ length deeper)
unfolding first_part walk is_bad_part
walk_strictly [] home h good name = cc
walk_strictly (p ∷ parts) home h good name =
    let (deeper, e, more) = walk_deeper parts home (p ∷ []) (any_cons p parts h).1 in
    (deeper, ap (λ st. walk st parts) (enter_deeper home p good name) ∙ e, more)

-- A regular file or a directory that lies below the home.
pub record IsContained (m : Member) : Type 0 where
  pub regular : (m.is_file || m.is_dir) ≡ true
  pub below :
      (home : List Text)
      → (deeper : List Text) × (walk home (split_on 47 m.name) ≡ deeper ++ home)
        × (1 ≤ length deeper)
  pub expected :
      has_backslash (first_part (split_on 47 m.name)) ≡ false
      → is_one_of (first_part (split_on 47 m.name)) (directories ++ legacy_directories) ≡ true

pub extracted : Recovery → List Member
extracted no_home = []
extracted wrong_archive = []
extracted (broken_off done) = done
extracted (recovered done) = done

-- What `_safe_tar_member` tells of the parts.
safe_parts :
    (stays : Text → Bool) (m : Member)
    → safe_tar_member stays m ≡ true
    → (any is_bad_part (split_on 47 (with_slashes m.name)) ≡ false)
      × (is_one_of
            (first_part (split_on 47 (with_slashes m.name)))
            (directories ++ legacy_directories)
          ≡ true)
      × ((m.is_file || m.is_dir) ≡ true)
unfolding safe_tar_member
safe_parts stays m h = (ground (arith, h), ground (arith, h), ground (arith, h))

-- A part with a backslash, and a name that is asked for, is no `.`.
not_here-has_backslash : (p : Text) → has_backslash p ≡ true → text_eq p (codes ".") ≡ false
unfolding has_backslash
not_here-has_backslash p h = elim (Bool-cases (text_eq p (codes "."))) [
  | inl e ↦ cc (h, ap has_backslash (text_eq_sound p (codes ".") e))
  | inr e ↦ e
]

not_here-is_one_of :
    (p : Text)
    → is_one_of p (directories ++ legacy_directories) ≡ true
    → text_eq p (codes ".") ≡ false
unfolding is_one_of text_eq
not_here-is_one_of p h = elim (Bool-cases (text_eq p (codes "."))) [
  | inl e ↦
      cc (
        h,
        ap (λ x. is_one_of x (directories ++ legacy_directories)) (text_eq_sound p (codes ".") e),
      )
  | inr e ↦ e
]

safe_tar_member-IsContained :
    (stays : Text → Bool) (m : Member) → safe_tar_member stays m ≡ true → IsContained m
safe_tar_member-IsContained stays m h =
    let (good, asked, regular) = safe_parts stays m h in
    let refined = split_on-Refines m.name in
    let parts = split_on 47 m.name in
    let fine = Refines-good parts (split_on 47 (with_slashes m.name)) refined good in
    let wanted : has_backslash (first_part parts) ≡ false
        → is_one_of (first_part parts) (directories ++ legacy_directories) ≡ true =
      λ clean.
        ap (λ p. is_one_of p (directories ++ legacy_directories)) (refined.same clean) ∙ asked in
    let named : text_eq (first_part parts) (codes ".") ≡ false =
      elim (Bool-cases (has_backslash (first_part parts))) [
        | inl there ↦ not_here-has_backslash (first_part parts) there
        | inr clean ↦ not_here-is_one_of (first_part parts) (wanted clean)
      ] in
    record {
      regular = regular;
      below = λ home.
          walk_strictly parts home fine
            (Refines-first parts (split_on 47 (with_slashes m.name)) refined good) named;
      expected = wanted;
    }

after_member-IsContained :
    (m : Member) (r : Recovery)
    → IsContained m
    → All IsContained (extracted r)
    → All IsContained (extracted (after_member m r))
unfolding after_member extracted
after_member-IsContained m no_home h k = tt
after_member-IsContained m wrong_archive h k = tt
after_member-IsContained m (broken_off done) h k = (h, k)
after_member-IsContained m (recovered done) h k = (h, k)

extract_members-IsContained :
    (stays : Text → Bool) (extracts : Member → Bool) (members : List Member)
    → All IsContained (extracted (extract_members stays extracts members))
unfolding extract_members extracted
extract_members-IsContained stays extracts [] = tt
extract_members-IsContained stays extracts (m ∷ members) =
    let rest = extract_members-IsContained stays extracts members in
    elim (Bool-cases (safe_tar_member stays m)) [
      | inl safe ↦ elim (Bool-cases (extracts m)) [
        | inl fine ↦
            rw (safe, fine)
              (after_member-IsContained m _ (safe_tar_member-IsContained stays m safe) rest)
        | inr stop ↦ rw (safe, stop) tt
      ]
      | inr skipped ↦ rw skipped rest
    ]

-- Whatever the archive holds, each member that `recover` extracts is a regular file or a directory
-- whose name, part by part from any directory, leads strictly below that directory; and the first
-- part of its name, if it holds no backslash, is one of the four directories of a backup.
pub recover_archive-IsContained :
    (stays : Text → Bool) (extracts : Member → Bool) (home : Option Text) (members : List Member)
    → All IsContained (extracted (recover_archive stays extracts home members))
unfolding recover_archive extracted
recover_archive-IsContained stays extracts none members = tt
recover_archive-IsContained stays extracts (some []) members = tt
recover_archive-IsContained stays extracts (some (c ∷ home)) members =
    elim (Bool-cases (
      not (all_present directories (names_of members))
      && not (all_present legacy_directories (names_of members)))) [
        | inl absent ↦ rw absent tt
        | inr present ↦ rw present (extract_members-IsContained stays extracts members)
      ]
