-- ===== src/Ingest/Download.antt =====
-- What a download leaves on the disk, and to whom it sends the provider's headers.
use mupitech_player.Prelude.{
  Bool, Bool-cases, Option, Text, TextDict, [], ap, arith, either_branch, false, if◌then◌else◌, inl,
  inr, ltb, none, refl, some, suc, text_eq, text_eq_sound, true, zero, ℕ, ◌+◌, ◌<◌, ◌∷◌, ◌≡◌, ◌≢◌,
  ◌≤◌,
}
use mupitech_player.Ingest.{
  Body, Files, Site, Written, after_body, after_get, all_written, broken, chunk, clean_up,
  download_to_assetdir, ended, failed_after, max_download_bytes, sends_auth, write_body,
}

-- The bytes of a body.
pub body_size : Body → ℕ
body_size ended = 0
body_size broken = 0
body_size (chunk n body) = n + body_size body

pub no_files : Files
no_files = record { part = none; staged = none }

-- A body that is written whole holds all its bytes, within the limit.
all_written_size :
    (writes : ℕ → Bool) (w : ℕ) (body : Body) (n : ℕ)
    → write_body writes w body ≡ all_written n
    → w ≤ max_download_bytes
    → (n ≡ w + body_size body) × (n ≤ max_download_bytes)
unfolding write_body body_size
all_written_size writes w ended n h low =
    let same : w ≡ n = cc in (omega (arith, same), omega (arith, same, low))
all_written_size writes w broken n h low = cc
all_written_size writes w (chunk zero body) n h low =
    let (size, most) = all_written_size writes w body n h low in (omega (arith, size), most)
all_written_size writes w (chunk (suc m) body) n h low =
    elim (Bool-cases (ltb max_download_bytes (w + suc m))) [
      | inl large ↦ absurd (ground (arith, h, large))
      | inr fits ↦ elim (Bool-cases (writes w)) [
        | inl fine ↦
            let (size, most) =
              all_written_size writes (w + suc m) body n (ground (arith, h, fits, fine))
                (ground (arith, fits)) in
            (omega (arith, size), most)
        | inr full ↦ absurd (ground (arith, h, fits, full))
      ]
    ]

-- What holds of the end of a download.
pub record Ended (site : Site) (end_state : Bool × Files) : Type 0 where
  pub kept :
      end_state.0 ≡ true
      → (body : Body) × (site.response ≡ some (true, body))
        × (end_state.1 ≡ record { part = none; staged = some (body_size body) })
        × (0 < body_size body)
        × (body_size body ≤ max_download_bytes)
  pub cleaned : end_state.0 ≡ false → site.unlinks ≡ true → end_state.1 ≡ no_files

failed-Ended : (site : Site) (files : Files) → Ended site (false, clean_up site files)
unfolding clean_up no_files
failed-Ended site files = record { kept = λ e. cc; cleaned = λ e u. ground (arith, u) }

after_body-Ended :
    (site : Site) (body : Body) (w : Written)
    → site.response ≡ some (true, body)
    → write_body site.writes 0 body ≡ w
    → Ended site (after_body site w)
unfolding after_body no_files clean_up
after_body-Ended site body (failed_after n) e h =
    failed-Ended site (record { part = some n; staged = none })
after_body-Ended site body (all_written zero) e h =
    failed-Ended site (record { part = some 0; staged = none })
after_body-Ended site body (all_written (suc n)) e h =
    let (size, most) = all_written_size site.writes 0 body (suc n) h (omega arith) in
    let whole : suc n ≡ body_size body = omega (arith, size) in
    either_branch (Ended site) site.replaces
      (record {
        kept = λ done. (
          body,
          e,
          ap (λ k. record { part = none; staged = some k }) whole,
          omega (arith, whole),
          omega (arith, whole, most),
        );
        cleaned = λ done. cc;
      })
      (failed-Ended site (record { part = some (suc n); staged = none }))

after_get-Ended :
    (site : Site) (r : Option (Bool × Body)) → site.response ≡ r → Ended site (after_get site r)
unfolding after_get clean_up
after_get-Ended site none e = failed-Ended site (record { part = none; staged = none })
after_get-Ended site (some (false, body)) e =
    failed-Ended site (record { part = none; staged = none })
after_get-Ended site (some (true, body)) e =
    either_branch (Ended site) site.opens
      (after_body-Ended site body (write_body site.writes 0 body) e refl)
      (failed-Ended site (record { part = none; staged = none }))

sends_auth_same :
    (netloc lower : Text → Text) (url : Text) (auth_host : Option Text) (headers : TextDict)
    → (if sends_auth netloc lower url auth_host then headers else []) ≢ []
    → (host : Text) × (auth_host ≡ some host) × (host ≢ []) × (lower (netloc url) ≡ lower host)
unfolding sends_auth
sends_auth_same netloc lower url none headers h = absurd (h refl)
sends_auth_same netloc lower url (some []) headers h = absurd (h refl)
sends_auth_same netloc lower url (some (c ∷ host)) headers h =
    elim (Bool-cases (text_eq (lower (netloc url)) (lower (c ∷ host)))) [
      | inl same ↦
          (c ∷ host, refl, (λ e. cc), text_eq_sound (lower (netloc url)) (lower (c ∷ host)) same)
      | inr foreign ↦ absurd (h (ground (arith, foreign)))
    ]

-- A download that returns leaves one staged file, which holds the whole body that the server sent,
-- more than 0 bytes and at most 5 GiB; one that fails leaves no file, where unlinking works. The
-- headers of the provider go out only if the host of the URL is, up to case, the host that they are
-- for, and that one is not empty.
pub download_to_assetdir-Ended :
    (netloc lower : Text → Text) (site : Site) (url : Text) (headers : TextDict)
    (auth_host : Option Text)
    → let (sent, returns, files) = download_to_assetdir netloc lower site url headers auth_host in
      Ended site (returns, files)
      × (sent ≢ []
          → (host : Text) × (auth_host ≡ some host)
            × (host ≢ [])
            × (lower (netloc url) ≡ lower host))
unfolding download_to_assetdir
download_to_assetdir-Ended netloc lower site url headers auth_host =
    (after_get-Ended site site.response refl, sends_auth_same netloc lower url auth_host headers)
