-- ===== src/Upload/Assets.antt =====
-- What is put into the server's store, and that one asset does not stop another.
use rekuest.Prelude.{
  ◌≡◌, refl, sym, ap, ◌∙◌, inl, inr, String, true, none, some, List, [], ◌∷◌, ◌++◌, ◌==◌, ◌↔◌,
  arith, if◌then◌else◌, All, Bool-cases, Option-cases, string_eq,
}
use rekuest.Upload.{
  Reply, reply, raises, Asset, Given, bytes_for, created_for, World, Tried, uploaded, already_held,
  stopped, refused, failed, crashed, then_with, ref_of, upload, goes_on, upload_assets,
}

-- The names of the assets with a file
pub with_path : List Asset → List String
with_path [] = []
with_path (a ∷ rest) = elim a.path [ none ↦ with_path rest | some path ↦ a.name ∷ with_path rest ]

abbrev pub tried_names : List (String × Tried) → List String
tried_names [] = []
tried_names ((name, tried) ∷ rest) = name ∷ tried_names rest

-- The outcomes with an error that is neither a refusal of the server nor a failure
abbrev pub crashes : List (String × Tried) → List String
crashes [] = []
crashes ((name, stopped crashed) ∷ rest) = name ∷ crashes rest
crashes ((name, _) ∷ rest) = crashes rest

crashes-goes_on :
    (name : String) (tried : Tried) (rest : List (String × Tried))
    → crashes ((name, tried) ∷ rest) ≡ (if goes_on tried then crashes rest else name ∷ crashes rest)
crashes-goes_on name uploaded rest = refl
crashes-goes_on name already_held rest = refl
crashes-goes_on name (stopped refused) rest = refl
crashes-goes_on name (stopped failed) rest = refl
crashes-goes_on name (stopped crashed) rest = refl

module _ {B : Type 0} (sha256 : B → String) where
  -- Bytes are given for an asset only if they are the asset's.
  pub IsMatching : Given B → Type 0
  IsMatching (bytes_for ref bytes) = ref_of sha256 bytes ≡ ref
  IsMatching (created_for ref store) = Unit {0}

  then_with-All :
      {A : Type 0} (r : Reply A) (given : List (Given B)) (next : A → Tried × List (Given B))
      → All IsMatching given
      → ((a : A) → r ≡ reply a → All IsMatching (next a).1)
      → All IsMatching (then_with r given next).1
  then_with-All (raises e) given next h k = h
  then_with-All (reply a) given next h k = k a refl

  module _ {G : Type 0} (w : World B G)
      (unchanged : (path : String) (first second : B)
        → w.reads path ≡ reply first
        → w.opens path ≡ reply second
        → first ≡ second) where
    upload-All :
        (ref path : String) (given : List (Given B))
        → All IsMatching given
        → All IsMatching (upload sha256 w ref path given).1
    unfolding upload IsMatching
    upload-All ref path given h = then_with-All (w.holds given ref) given _ h (λ held e.
        elim (Bool-cases held) [
          | inl there ↦ rw there h
          | inr missing ↦ rw missing (
              then_with-All (w.reads path) given _ h (λ bytes read.
                elim (Bool-cases (ref_of sha256 bytes == ref)) [
                  | inr other ↦ rw other h
                  | inl same ↦ rw same (
                      then_with-All (w.grants given ref) given _ h (λ grant granted.
                        then_with-All (w.opens path) given _ h (λ file opened.
                          then_with-All (w.stores given grant file) given _ h (λ store stored.
                            let match_ : ref_of sha256 file ≡ ref =
                              ap (ref_of sha256) (sym (unchanged path bytes file read opened))
                              ∙ (string_eq.beq_iff (ref_of sha256 bytes) ref).0 same in
                            then_with-All (w.creates (bytes_for ref file ∷ given) ref store)
                              (bytes_for ref file ∷ given) _ (match_, h)
                              (λ done e. (tt, (match_, h)))))))
                ]))
        ])

    upload_assets-All :
        (assets : List Asset) (given : List (Given B))
        → All IsMatching given
        → All IsMatching (upload_assets sha256 w assets given).1
    unfolding upload_assets
    upload_assets-All [] given h = h
    upload_assets-All (a ∷ rest) given h = elim (Option-cases a.path) [
      | inl none_ ↦ rw none_ (upload_assets-All rest given h)
      | inr (path, some_) ↦
          let one = upload-All a.ref path given h in
          elim (Bool-cases (goes_on (upload sha256 w a.ref path given).0)) [
            | inl on ↦
                rw (some_, on) (upload_assets-All rest (upload sha256 w a.ref path given).1 one)
            | inr off ↦ rw (some_, off) one
          ]
    ]

  trying :
      {G : Type 0} (w : World B G) (assets : List Asset) (given : List (Given B))
      → let (tried, given', through) = upload_assets sha256 w assets given in
        (left : List String) × (with_path assets ≡ tried_names tried ++ left)
        × (through ≡ true → left ≡ [])
        × ((through ≡ true) ↔ (crashes tried ≡ []))
  unfolding upload_assets with_path
  trying w [] given = ([], refl, λ e. refl, (λ e. refl, λ e. refl))
  trying w (a ∷ rest) given = elim (Option-cases a.path) [
    | inl none_ ↦ rw none_ (trying w rest given)
    | inr (path, some_) ↦
        let one = upload sha256 w a.ref path given in
        let later = trying w rest one.1 in
        let later_tried = (upload_assets sha256 w rest one.1).0 in
        let counted = crashes-goes_on a.name one.0 in
        elim (Bool-cases (goes_on (upload sha256 w a.ref path given).0)) [
          | inl on ↦
              rw (some_, on)
                (
                  later.0,
                  ap (λ xs. a.name ∷ xs) later.1,
                  later.2,
                  (
                    λ e. counted later_tried ∙ rw on (later.3.0 e),
                    λ e. later.3.1 (ground (arith, counted later_tried, on, e)),
                  ),
                )
          | inr off ↦
              rw (some_, off)
                (
                  with_path rest,
                  refl,
                  λ e. absurd (cc e),
                  (λ e. absurd (cc e), λ e. absurd (ground (arith, counted [], off, e))),
                )
        ]
  ]

  -- Assets are uploaded each on its own, in their order. Those that are tried are an initial part of the
  -- assets with a file. The loop gets through, and has tried them all, exactly if no outcome is
  -- an error other than a refusal of the server or a failure of an upload or a file. And bytes are given
  -- to the server for an asset only if the asset's reference is their digest, provided no file
  -- changes between its two readings.
  pub upload_assets_lem :
      {G : Type 0} (w : World B G)
      → ((path : String) (first second : B)
          → w.reads path ≡ reply first
          → w.opens path ≡ reply second
          → first ≡ second)
      → (assets : List Asset)
      → let (tried, given, through) = upload_assets sha256 w assets [] in
        ((left : List String) × (with_path assets ≡ tried_names tried ++ left)
          × (through ≡ true → left ≡ [])
          × ((through ≡ true) ↔ (crashes tried ≡ [])))
        × All IsMatching given
  upload_assets_lem w unchanged assets =
      (trying w assets [], upload_assets-All w unchanged assets [] tt)
