-- ===== src/Upload.antt =====
-- rekuest/client/upload/assets.py: the files that an app registered are put into the server's store.
-- `B` are bytes, `G` grants; the server, the file system and `astore_media_file` are parameters.
pub mod Assets
pub mod Link
pub mod Files
mod Examples
use rekuest.Prelude.{
  String, Bool, true, false, not, Option, none, some, List, [], ◌∷◌, ◌==◌, if◌then◌else◌, string_eq,
}
use Prim.Native.String.{◌++◌}

-- A `GraphQLException`, an `UploadError` or `OSError`, and anything else that is raised
pub data Failure : Type 0 where
  refused failed crashed : Failure

pub data Reply (A : Type 0) : Type 0 where
  reply : A → Reply A
  raises : Failure → Reply A

-- `AssetDeclaration`, with the fields that this file reads
pub record Asset : Type 0 where
  pub name : String
  pub ref : String
  pub path : Option String

-- What the server has been given, the last first
pub data Given (B : Type 0) : Type 0 where
  bytes_for : String → B → Given B
  created_for : String → String → Given B

-- The answers may depend on what was given before. `reads` is the first reading of a file, `opens` the
-- second, for the upload.
pub record World (B G : Type 0) : Type 0 where
  pub holds : List (Given B) → String → Reply Bool
  pub reads : String → Reply B
  pub grants : List (Given B) → String → Reply G
  pub opens : String → Reply B
  pub stores : List (Given B) → G → B → Reply String
  pub creates : List (Given B) → String → String → Reply Bool

-- What `_aupload` returned or raised
pub data Tried : Type 0 where
  uploaded already_held : Tried
  stopped : Failure → Tried

-- What is raised ends `_aupload`.
abbrev pub then_with :
    {A B : Type 0}
    → Reply A
    → List (Given B)
    → (A → Tried × List (Given B))
    → Tried × List (Given B)
then_with (raises e) given next = (stopped e, given)
then_with (reply a) given next = next a

-- What the loop does with one asset's outcome: only what is neither a refusal nor an expected
-- failure leaves it.
abbrev pub goes_on : Tried → Bool
goes_on (stopped crashed) = false
goes_on _ = true

-- `"sha256:" + hashlib.sha256(data).hexdigest()`
abbrev pub ref_of : {B : Type 0} → (B → String) → B → String
ref_of sha256 bytes = "sha256:" ++ sha256 bytes

module _ {B G : Type 0} where
  module _ (sha256 : B → String) (w : World B G) where
    -- `_aupload`
    unfoldable pub upload : String → String → List (Given B) → Tried × List (Given B)
    upload ref path given = then_with (w.holds given ref) given (λ held.
        if held
        then (already_held, given)
        else then_with (w.reads path) given (λ bytes.
          if not (ref_of sha256 bytes == ref)
          then (stopped failed, given)
          else then_with (w.grants given ref) given (λ grant.
            then_with (w.opens path) given (λ file.
              then_with (w.stores given grant file) given (λ store.
                let put = bytes_for ref file ∷ given in
                then_with (w.creates put ref store) put
                  (λ done. (uploaded, created_for ref store ∷ put)))))))

    -- `aupload_assets`: the outcomes by name in order, what the server was given, and whether it got through.
    unfoldable pub upload_assets :
        List Asset → List (Given B) → List (String × Tried) × List (Given B) × Bool
    unfolding upload
    upload_assets [] given = ([], given, true)
    upload_assets (asset ∷ rest) given = elim asset.path [
      | none ↦ upload_assets rest given
      | some path ↦
          let (tried, given') = upload asset.ref path given in
          let (later, given'', through) = upload_assets rest given' in
          if goes_on tried
          then ((asset.name, tried) ∷ later, given'', through)
          else ((asset.name, tried) ∷ [], given', false)
    ]
