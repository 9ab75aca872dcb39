-- ===== src/Backup/Examples.antt =====
-- Archives as an attacker may make them, and the theorem about `recover` applied to them.
use mupitech_player.Prelude.{
  All, List, String, [], codes, false, refl, some, split_on, starts_with, text_eq, true, ◌∷◌, ◌≡◌,
}
use mupitech_player.Backup.{Member, recover_archive, recovered}
use mupitech_player.Backup.Contained.{IsContained, extracted, recover_archive-IsContained}

abbrev file_named : String → Member
file_named name = record { name = codes name; is_file = true; is_dir = false }

abbrev odd_archive : List Member
odd_archive =
    record { name = codes ".anthias"; is_file = false; is_dir = true }
    ∷ record { name = codes "anthias_assets"; is_file = false; is_dir = true }
    ∷ file_named "anthias_assets/../../etc/passwd"
    ∷ file_named "anthias_assets/a.png"
    ∷ file_named ".anthias\\stray"
    ∷ []

-- Of an odd archive the two directories, the picture, and a stray file of the home are extracted.
odd_archive_recovers :
    recover_archive (λ name. true) (λ m. true) (some (codes "/home/pi")) odd_archive
    ≡ recovered (
        record { name = codes ".anthias"; is_file = false; is_dir = true }
        ∷ record { name = codes "anthias_assets"; is_file = false; is_dir = true }
        ∷ file_named "anthias_assets/a.png"
        ∷ file_named ".anthias\\stray"
        ∷ [])
unfolding recover_archive text_eq starts_with split_on
odd_archive_recovers = refl

recover_archive-IsContained_example :
    All IsContained
      (extracted (recover_archive (λ name. true) (λ m. true) (some (codes "/home/pi")) odd_archive))
recover_archive-IsContained_example =
    recover_archive-IsContained (λ name. true) (λ m. true) (some (codes "/home/pi")) odd_archive
