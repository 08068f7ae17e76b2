-- ===== src/Upload/Files/Stored.antt =====
-- What a file is replaced by: the store of a grant that the server gave for it, where its bytes are.
use rekuest.Prelude.{
  ◌≡◌, refl, sym, subst, inl, inr, String, Bool, true, Option, none, some, List, [], ◌∷◌, arith,
  Option-cases, Bool-cases,
}
use mathlib.Core.Option
use rekuest.Upload.Link.{Value, Leaf, file, other, leaves, shape}
use rekuest.Upload.Link.Uploaded.{upload_leaf, upload_leaves, others, variables_are_uploaded}
use rekuest.Upload.Files.{
  Grant, S3Store, create_s3_store, DataLayer, MediaLike, astore_media_file,
  aget_media_upload_credentials, aupload_mediafile, aparse,
}

module _ {B : Type 0} (put_async : S3Store → String → B → Bool) (datalayer : DataLayer) where
  -- The first answer to the request for a file's name is a grant, and the file's bytes are at its key
  -- in its bucket, over its credentials and the datalayer's address.
  pub record IsStored (next : Option (String → List (Option Grant))) (m : MediaLike B)
      (key : String) : Type 0 where
    pub grant : Grant
    pub aexecute : String → List (Option Grant)
    pub later : List (Option Grant)
    pub has_next : next ≡ some aexecute
    pub is_granted : aexecute m.file_name ≡ some grant ∷ later
    pub is_put :
        put_async (create_s3_store datalayer.endpoint_url grant datalayer.proxy) grant.key m.value
        ≡ true
    pub is_key : key ≡ grant.store

  module _ (m : MediaLike B) (key : String) where
    store_leads :
        (aexecute : String → List (Option Grant)) (grant : Grant) (later : List (Option Grant))
        → aexecute m.file_name ≡ some grant ∷ later
        → astore_media_file put_async m grant datalayer ≡ some key
        → IsStored (some aexecute) m key
    unfolding astore_media_file
    store_leads aexecute grant later granted h =
        elim (Bool-cases (
          put_async (create_s3_store datalayer.endpoint_url grant datalayer.proxy) grant.key
            m.value)) [
              | inl put ↦ record {
                grant = grant;
                aexecute = aexecute;
                later = later;
                has_next = refl;
                is_granted = granted;
                is_put = put;
                is_key = ground (arith, h, put);
              }
              | inr failed ↦ absurd (ground (arith, h, failed))
            ]

    answer_leads :
        (aexecute : String → List (Option Grant)) (answers : List (Option Grant))
        → aexecute m.file_name ≡ answers
        → aupload_mediafile put_async (some aexecute) datalayer m ≡ some key
        → IsStored (some aexecute) m key
    unfolding aupload_mediafile aget_media_upload_credentials
    answer_leads aexecute [] e h = absurd (ground (arith, e, h))
    answer_leads aexecute (none ∷ later) e h = absurd (ground (arith, e, h))
    answer_leads aexecute (some grant ∷ later) e h =
        store_leads aexecute grant later e (ground (arith, e, h))

    aupload_mediafile-IsStored :
        (next : Option (String → List (Option Grant)))
        → aupload_mediafile put_async next datalayer m ≡ some key
        → IsStored next m key
    unfolding aupload_mediafile aget_media_upload_credentials
    aupload_mediafile-IsStored none h = absurd (cc h)
    aupload_mediafile-IsStored (some aexecute) h =
        answer_leads aexecute (aexecute m.file_name) refl h

  module _ {S : Type 0} (text : String → S) (next : Option (String → List (Option Grant))) where
    abbrev upload_file : MediaLike B → Option S
    upload_file m = Option.map text (aupload_mediafile put_async next datalayer m)

    -- A leaf and what stands in its place
    pub data Replaces : Leaf (MediaLike B) S → Leaf (MediaLike B) S → Type 0 where
      stored :
          {m : MediaLike B} {key : String}
          → IsStored next m key
          → Replaces (file m) (other (text key))
      kept : {s : S} → Replaces (other s) (other s)

    pub data AllReplace : List (Leaf (MediaLike B) S) → List (Leaf (MediaLike B) S) → Type 0 where
      no_leaf : AllReplace [] []
      then_leaf :
          {x y : Leaf (MediaLike B) S} {xs ys : List (Leaf (MediaLike B) S)}
          → Replaces x y
          → AllReplace xs ys
          → AllReplace (x ∷ xs) (y ∷ ys)

    upload_leaf-Replaces :
        (x : Leaf (MediaLike B) S) (s : S)
        → upload_leaf upload_file x ≡ some s
        → Replaces x (other s)
    unfolding upload_leaf
    upload_leaf-Replaces (file m) s h =
        elim (Option-cases (aupload_mediafile put_async next datalayer m)) [
          | inl e ↦ absurd (ground (arith, e, h))
          | inr (key, e) ↦
              let same : text key ≡ s = ground (arith, e, h) in
              subst (λ u. Replaces (file m) (other u)) same
                (stored (aupload_mediafile-IsStored m key next e))
        ]
    upload_leaf-Replaces (other t) s h =
        let same : t ≡ s = cc h in subst (λ u. Replaces (other t) (other u)) same kept

    upload_leaves-AllReplace :
        (xs : List (Leaf (MediaLike B) S)) (ss : List S)
        → upload_leaves upload_file xs ≡ some ss
        → AllReplace xs (others upload_file ss)
    unfolding upload_leaves
    upload_leaves-AllReplace [] [] h = no_leaf
    upload_leaves-AllReplace [] (s ∷ ss) h = absurd (cc h)
    upload_leaves-AllReplace (x ∷ xs) ss h = elim (Option-cases (upload_leaf upload_file x)) [
      | inl e ↦ absurd (ground (arith, e, h))
      | inr (s, e) ↦ elim (Option-cases (upload_leaves upload_file xs)) [
        | inl e' ↦ absurd (ground (arith, e, e', h))
        | inr (ss', e') ↦
            let same : s ∷ ss' ≡ ss = ground (arith, e, e', h) in
            subst (λ zs. AllReplace (x ∷ xs) (others upload_file zs)) same
              (then_leaf (upload_leaf-Replaces x s e) (upload_leaves-AllReplace xs ss' e'))
      ]
    ]

    -- When an operation has been parsed, its variables are nested as before, every plain value is as
    -- it was, and each file has given way to the text that names the store of a grant: the first that
    -- the next link answered to a request for the file's name, at whose key the file's bytes have
    -- been put.
    pub parsed_files_are_stored :
        (variables parsed : Value (MediaLike B) S)
        → aparse put_async next text datalayer variables ≡ some parsed
        → AllReplace (leaves variables) (leaves parsed) × (shape parsed ≡ shape variables)
    unfolding aparse
    parsed_files_are_stored variables parsed h =
        let (ss, e, l, s) = (variables_are_uploaded upload_file variables parsed).0 h in
        (
          subst (AllReplace (leaves variables)) (sym l)
              (upload_leaves-AllReplace (leaves variables) ss e),
          s,
        )
