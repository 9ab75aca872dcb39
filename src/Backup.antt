-- ===== src/Backup.antt =====
-- src/anthias_server/lib/backup_helper.py: which members of an archive `recover` extracts. The file
-- system (`path.realpath`) and `tarfile` are parameters.
pub mod Parts
pub mod Contained
pub mod Examples
use mupitech_player.Prelude.{
  Bool, List, Option, Text, [], any, codes, false, if◌then◌else◌, is_empty, none, not, some,
  split_on, starts_with, text_eq, true, ◌&&◌, ◌++◌, ◌==◌, ◌||◌, ◌∷◌,
}

pub record Member : Type 0 where
  pub name : Text
  pub is_file : Bool
  pub is_dir : Bool

abbrev pub directories : List Text
directories = codes ".anthias" ∷ codes "anthias_assets" ∷ []

abbrev pub legacy_directories : List Text
legacy_directories = codes ".screenly" ∷ codes "screenly_assets" ∷ []

pub is_one_of : Text → List Text → Bool
is_one_of s texts = any (text_eq s) texts

-- `name.replace('\\', '/')`
pub with_slashes : Text → Text
with_slashes [] = []
with_slashes (c ∷ s) = (if c == 92 then 47 else c) ∷ with_slashes s

-- `p in ('', '..')`
unfoldable pub is_bad_part : Text → Bool
is_bad_part p = is_empty p || text_eq p (codes "..")

unfoldable pub first_part : List Text → Text
first_part [] = []
first_part (p ∷ parts) = p

-- `_safe_tar_member`; `stays` is its last test, on the real path of the target.
pub safe_tar_member : (stays : Text → Bool) → Member → Bool
unfolding with_slashes is_bad_part is_one_of first_part
safe_tar_member stays member =
    let parts = split_on 47 (with_slashes member.name) in
    if is_empty member.name || starts_with (codes "/") member.name
    then false
    else if any is_bad_part parts
    then false
    else if not (is_one_of (first_part parts) (directories ++ legacy_directories))
    then false
    else if not (member.is_file || member.is_dir)
    then false
    else stays member.name

-- What `recover` comes to, with the members that it extracted: it ends the process without a home,
-- refuses the archive, or stops at an exception of `tar.extract`.
pub data Recovery : Type 0 where
  no_home wrong_archive : Recovery
  broken_off recovered : List Member → Recovery

-- `all(d in names for d in wanted)`
pub all_present : List Text → List Text → Bool
unfolding is_one_of
all_present [] names = true
all_present (d ∷ wanted) names = is_one_of d names && all_present wanted names

pub names_of : List Member → List Text
names_of [] = []
names_of (m ∷ members) = m.name ∷ names_of members

-- One more member was extracted before these.
pub after_member : Member → Recovery → Recovery
after_member m no_home = no_home
after_member m wrong_archive = wrong_archive
after_member m (broken_off done) = broken_off (m ∷ done)
after_member m (recovered done) = recovered (m ∷ done)

-- The loop over the members; `extracts` tells whether `tar.extract` returns.
pub extract_members : (stays : Text → Bool) → (extracts : Member → Bool) → List Member → Recovery
unfolding safe_tar_member after_member
extract_members stays extracts [] = recovered []
extract_members stays extracts (m ∷ members) =
    let rest = extract_members stays extracts members in
    if not (safe_tar_member stays m)
    then rest
    else if extracts m
    then after_member m rest
    else broken_off []

-- `recover`
pub recover_archive :
    (stays : Text → Bool) → (extracts : Member → Bool) → Option Text → List Member → Recovery
unfolding all_present names_of extract_members
recover_archive stays extracts none members = no_home
recover_archive stays extracts (some []) members = no_home
recover_archive stays extracts (some (c ∷ home)) members =
    if not (all_present directories (names_of members))
      && not (all_present legacy_directories (names_of members))
    then wrong_archive
    else extract_members stays extracts members
