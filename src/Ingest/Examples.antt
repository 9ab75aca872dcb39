-- ===== src/Ingest/Examples.antt =====
-- One download over two chunks, and the theorem about it applied to it.
use mupitech_player.Prelude.{
  Text, TextDict, [], codes, is_space, refl, some, strip, true, ◌∷◌, ◌≡◌, ◌≢◌,
}
use mupitech_player.Ingest.{Site, chunk, download_to_assetdir, ended, is_alnum, sanitise_ext}
use mupitech_player.Ingest.Download.{Ended, download_to_assetdir-Ended}

abbrev two_chunks : Site
two_chunks = record {
  response = some (true, chunk 1_000 (chunk 0 (chunk 24 ended)));
  opens = true;
  writes = λ written. true;
  replaces = true;
  unlinks = true;
}

abbrev token : TextDict
token = (codes "Authorization", codes "Token abc") ∷ []

-- A hint that points out of the directory becomes letters.
hostile_hint : sanitise_ext (codes "/../../etc/passwd") ≡ codes ".etcpasswd"
unfolding sanitise_ext is_alnum strip is_space
hostile_hint = refl

download_to_assetdir-Ended_example :
    let (sent, returns, files) =
      download_to_assetdir
        (λ url. codes "cdn.example")
        (λ s. s)
        two_chunks
        (codes "https://cdn.example/x")
        token
        (some (codes "api.example")) in
    Ended two_chunks (returns, files)
    × (sent ≢ []
        → (host : Text) × (some (codes "api.example") ≡ some host)
          × (host ≢ [])
          × (codes "cdn.example" ≡ host))
download_to_assetdir-Ended_example =
    download_to_assetdir-Ended (λ url. codes "cdn.example") (λ s. s) two_chunks
      (codes "https://cdn.example/x") token (some (codes "api.example"))
