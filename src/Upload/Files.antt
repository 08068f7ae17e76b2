-- ===== src/Upload/Files.antt =====
-- rekuest/client/upload/media.py and the methods of `UploadLink` in rekuest/client/upload/link.py: the
-- files among an operation's variables are put into the store that the server grants. `B` are bytes.
-- The link after this one and the object store are parameters; `none` is an exception.
pub mod Stored
use rekuest.Prelude.{
  String, Bool, true, false, Option, none, some, List, [], ◌∷◌, if◌then◌else◌, truthy,
}
use text.Mathlib.Text.{starts_with}
use mathlib.Core.Option
use rekuest.Upload.Link.{Value, apply_recursive}

-- `MediaUploadGrant`
pub record Grant : Type 0 where
  pub access_key : String
  pub secret_key : String
  pub session_token : Option String
  pub bucket : String
  pub key : String
  pub store : String

-- The options that `S3Store` is made with: a key that is not set is `none`, or `false`.
pub record S3Store : Type 0 where
  pub bucket : String
  pub access_key_id : String
  pub secret_access_key : String
  pub endpoint : String
  pub virtual_hosted_style_request : Bool
  pub allow_http : Bool
  pub proxy_url : Option String
  pub session_token : Option String

unfoldable pub create_s3_store : String → Grant → Option String → S3Store
create_s3_store endpoint_url credentials proxy = record {
  bucket = credentials.bucket;
  access_key_id = credentials.access_key;
  secret_access_key = credentials.secret_key;
  endpoint = endpoint_url;
  virtual_hosted_style_request = false;
  allow_http = starts_with endpoint_url "http://";
  proxy_url = truthy proxy;
  session_token = truthy credentials.session_token;
}

pub record DataLayer : Type 0 where
  pub endpoint_url : String
  pub proxy : Option String

pub record MediaLike (B : Type 0) : Type 0 where
  pub value : B
  pub file_name : String

module _ {B : Type 0} (put_async : S3Store → String → B → Bool) where
  unfoldable pub astore_media_file : MediaLike B → Grant → DataLayer → Option String
  astore_media_file file credentials datalayer =
      let store = create_s3_store datalayer.endpoint_url credentials datalayer.proxy in
      if put_async store credentials.key file.value then some credentials.store else none

  -- The link after this one: what its `aexecute` yields for the request of a grant for a file's name,
  -- one result after the other, of which `none` raises.
  module _ (next : Option (String → List (Option Grant))) where
    unfoldable pub aget_media_upload_credentials : MediaLike B → Option Grant
    aget_media_upload_credentials file = elim next [
      | none ↦ none
      | some aexecute ↦ elim (aexecute file.file_name) [ [] ↦ none | result ∷ more ↦ result ]
    ]

    unfoldable pub aupload_mediafile : DataLayer → MediaLike B → Option String
    aupload_mediafile datalayer file = elim (aget_media_upload_credentials file) [
      | none ↦ none
      | some credentials ↦ astore_media_file file credentials datalayer
    ]

    -- `S` are the plain values, of which `text` are the texts.
    unfoldable pub aparse :
        {S : Type 0}
        → (String → S)
        → DataLayer
        → Value (MediaLike B) S
        → Option (Value (MediaLike B) S)
    aparse text datalayer variables =
        apply_recursive (λ file. Option.map text (aupload_mediafile datalayer file)) variables
