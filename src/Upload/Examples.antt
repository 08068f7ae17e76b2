-- ===== src/Upload/Examples.antt =====
-- Three assets: one without a file, one whose file is gone, and one that is uploaded. A text is its own
-- digest.
use rekuest.Prelude.{
  ◌↔◌, ℕ, Option, Bool, refl, ◌≡◌, true, false, Bool-cases, inl, inr, none, some, List, [], ◌∷◌,
  ◌++◌, String, All, ◌==◌, if◌then◌else◌, string_eq,
}
use rekuest.Upload.{Asset, reply, raises, failed, World, upload_assets}
use rekuest.Upload.Assets.{IsMatching, with_path, tried_names, crashes, upload_assets_lem}
use rekuest.Upload.Link.{
  Value, dictionary, sequence, media, plain, end, then_value, no_field, then_field, apply_recursive,
  leaves, shape,
}
use rekuest.Upload.Files.{
  Grant, S3Store, DataLayer, MediaLike, aparse, aupload_mediafile, aget_media_upload_credentials,
  astore_media_file,
}
use rekuest.Upload.Files.Stored.{AllReplace, parsed_files_are_stored}

abbrev disk : World String String
disk = record {
  holds = λ given ref. reply false;
  reads = λ path. if path == "gone" then raises failed else reply "b2";
  grants = λ given ref. reply "grant";
  opens = λ path. reply "b2";
  stores = λ given grant file. reply "store";
  creates = λ given ref store. reply true;
}

abbrev assets : List Asset
assets =
    record { name = "linked"; ref = "sha256:b0"; path = none }
    ∷ record { name = "lost"; ref = "sha256:b1"; path = some "gone" }
    ∷ record { name = "logo"; ref = "sha256:b2"; path = some "logo.svg" }
    ∷ []

same_file :
    (path : String) (first second : String)
    → disk.reads path ≡ reply first
    → disk.opens path ≡ reply second
    → first ≡ second
same_file path first second a b = elim (Bool-cases (path == "gone")) [
  | inl gone ↦ absurd (cc (a, gone))
  | inr there ↦ cc (a, b, there)
]

upload_assets_lem_example :
    let (tried, given, through) = upload_assets (λ b. b) disk assets [] in
    ((left : List String) × (with_path assets ≡ tried_names tried ++ left)
      × (through ≡ true → left ≡ [])
      × ((through ≡ true) ↔ (crashes tried ≡ [])))
    × All (IsMatching (λ b. b)) given
upload_assets_lem_example = upload_assets_lem (λ b. b) disk same_file assets

data Json : Type 0 where
  text : String → Json
  number : ℕ → Json

-- A file in a list in a dictionary
abbrev photo : MediaLike String
photo = record { value = "bytes"; file_name = "photo.png" }

abbrev variables : Value (MediaLike String) Json
variables = dictionary (
    then_field "input" (sequence (then_value (media photo) (then_value (plain (text "x")) end)))
      (then_field "limit" (plain (number 3)) no_field))

abbrev stored_variables : Value (MediaLike String) Json
stored_variables = dictionary (
    then_field "input"
      (sequence (then_value (plain (text "store-7")) (then_value (plain (text "x")) end)))
      (then_field "limit" (plain (number 3)) no_field))

abbrev grant : Grant
grant = record {
  access_key = "a";
  secret_key = "s";
  session_token = none;
  bucket = "media";
  key = "k7";
  store = "store-7";
}

-- The server grants the photo's name only, and the store takes what is put at the granted key.
abbrev grants : Option (String → List (Option Grant))
grants = some (λ name. if name == "photo.png" then some grant ∷ [] else [])

abbrev takes : S3Store → String → String → Bool
takes store key value = key == "k7"

abbrev minio : DataLayer
minio = record { endpoint_url = "http://minio:9000"; proxy = none }

is_parsed : aparse takes grants text minio variables ≡ some stored_variables
unfolding aparse aupload_mediafile aget_media_upload_credentials astore_media_file apply_recursive
is_parsed = refl

parsed_files_are_stored_example :
    AllReplace takes minio text grants (leaves variables) (leaves stored_variables)
    × (shape stored_variables ≡ shape variables)
parsed_files_are_stored_example =
    parsed_files_are_stored takes minio text grants variables stored_variables is_parsed
