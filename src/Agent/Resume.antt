-- ===== src/Agent/Resume.antt =====
-- `_complete_resume`: what a process that takes over a task adds to the task's resume journal.
use rekuest.Prelude.{
  ℕ, ◌≤◌, max, ◌≡◌, ◌≢◌, ◌⊎◌, refl, ap, sym, ◌∙◌, append_assoc, String, Bool, true, false, not,
  ◌&&◌, Option, none, some, List, [], ◌∷◌, ◌++◌, arith, ◌==◌, if◌then◌else◌, contains, All,
  Bool-cases, string_eq, nat_eq, pair_eq, option_list, inl, inr,
}
use rekuest.Prelude.Dict.{Dict, lookup}
use rekuest.Agent.{FrameKind, effect, Frame, RetainedKey, Delivery, open_store}

pub record RecordedEffect : Type 0 where
  pub key : String
  pub name : String
  pub value : String

pub record ResumeJournal : Type 0 where
  pub effects : List RecordedEffect
  pub last_step : ℕ

abbrev pub effect_keys : List RecordedEffect → List String
effect_keys [] = []
effect_keys (e ∷ es) = e.key ∷ effect_keys es

-- `frame.task == task`
abbrev pub is_of : String → Frame → Bool
is_of task frame = elim frame.task [ none ↦ false | some t ↦ t == task ]

-- The test of `held`: an effect with a key that is not known
abbrev pub held_effect : List String → FrameKind → Option RecordedEffect
held_effect known (effect key name value) =
    if not (key == "") && not (contains key known)
    then some (record { key = key; name = name; value = value })
    else none
held_effect known _ = none

unfoldable pub held_effects : String → List String → Dict RetainedKey Frame → List RecordedEffect
held_effects task known [] = []
held_effects task known ((k, frame) ∷ rest) =
    if is_of task frame
    then option_list (held_effect known frame.kind) ++ held_effects task known rest
    else held_effects task known rest

-- The steps that are neither missing nor 0
unfoldable pub held_steps : String → Dict RetainedKey Frame → List ℕ
held_steps task [] = []
held_steps task ((k, frame) ∷ rest) =
    if is_of task frame
    then (elim frame.task_step [
      | none ↦ held_steps task rest
      | some n ↦ if n == 0 then held_steps task rest else n ∷ held_steps task rest
    ])
    else held_steps task rest

-- `max([last, *steps])`
unfoldable pub max_of : ℕ → List ℕ → ℕ
max_of last [] = last
max_of last (n ∷ ns) = max_of (max last n) ns

-- The journal that the task resumes with, and the process, whose store is opened by then.
unfoldable pub complete_resume :
    (String → Option Frame)
    → String
    → Bool
    → String
    → ResumeJournal
    → Delivery Frame
    → ResumeJournal × Delivery Frame
unfolding held_effects held_steps max_of
complete_resume read agent opens task journal d =
    let opened = open_store read agent opens d in
    (
      record {
        effects =
            journal.effects ++ held_effects task (effect_keys journal.effects) opened.retained;
        last_step = max_of journal.last_step (held_steps task opened.retained);
      },
      opened,
    )

max_of-bounds :
    (last : ℕ) (ns : List ℕ)
    → (last ≤ max_of last ns) × ((n : ℕ) → contains n ns ≡ true → n ≤ max_of last ns)
unfolding max_of
max_of-bounds last [] = (omega arith, λ n h. absurd (cc h))
max_of-bounds last (m ∷ ns) =
    let rest = max_of-bounds (max last m) ns in
    (
      omega (arith, rest.0),
      λ n h. elim (Bool-cases (m == n)) [
        | inl e ↦ ground (arith, rest.0, nat_eq.beq_iff m n)
        | inr e ↦ rest.1 n (ground arith)
      ],
    )

contains-held_steps :
    (task : String) (k : RetainedKey) (frame : Frame) (n : ℕ) (retained : Dict RetainedKey Frame)
    → lookup k retained ≡ some frame
    → frame.task ≡ some task
    → frame.task_step ≡ some n
    → n ≢ 0
    → contains n (held_steps task retained) ≡ true
unfolding held_steps lookup
contains-held_steps task k frame n [] h t s z = ground arith
contains-held_steps task k frame n ((j, f) ∷ rest) h t s z = elim (Bool-cases (j == k)) [
  | inl e ↦ ground (arith, nat_eq.beq_iff n n, nat_eq.beq_iff n 0, string_eq.beq_iff task task)
  | inr e ↦ ground (arith, contains-held_steps task k frame n rest, nat_eq.beq_iff n 0)
]

-- A held effect stands among those added, with the name and the value that its frame has.
held_effects-lists :
    (task : String) (known : List String) (k : RetainedKey) (frame : Frame)
    (key name value : String) (retained : Dict RetainedKey Frame)
    → lookup k retained ≡ some frame
    → frame.task ≡ some task
    → frame.kind ≡ effect key name value
    → key ≢ ""
    → contains key known ≡ false
    → (before after : List RecordedEffect) × (held_effects task known retained
        ≡ before ++ record { key = key; name = name; value = value } ∷ after)
unfolding held_effects lookup
held_effects-lists task known k frame key name value [] h t s z c = absurd (cc h)
held_effects-lists task known k frame key name value ((j, f) ∷ rest) h t s z c =
    elim (Bool-cases (j == k)) [
      | inl e ↦
          let same : f ≡ frame = ground (arith, e, h) in
          (
            [],
            held_effects task known rest,
            ground (arith, same, t, s, c, z, string_eq.beq_iff key "", string_eq.beq_iff task task),
          )
      | inr e ↦
          let (before, after, split) =
            held_effects-lists task known k frame key name value rest (ground (arith, e, h)) t s z
              c in
          let head = option_list (held_effect known f.kind) in
          elim (Bool-cases (is_of task f)) [
            | inl mine ↦ (
              head ++ before,
              after,
              rw mine (ap (λ xs. head ++ xs) split ∙ sym (append_assoc head before _)),
            )
            | inr other ↦ (before, after, rw other split)
          ]
    ]

held_effects-unknown :
    (task : String) (known : List String) (retained : Dict RetainedKey Frame)
    → All (λ e. contains e.key known ≡ false) (held_effects task known retained)
unfolding held_effects
held_effects-unknown task known [] = tt
held_effects-unknown task known ((j, f) ∷ rest) =
    ground (arith, held_effects-unknown task known rest)

module _ (read : String → Option Frame) (agent : String) (opens : Bool) (task : String)
    (journal : ResumeJournal) (d : Delivery Frame) where
  -- A resumed task starts from the server's effects, in their order, followed only by ones whose key
  -- the server does not have. Every keyed effect of the task that is still retained once the store is
  -- open is among those added, with the name and the value that were recorded, unless the server has
  -- its key.
  pub resume_has_effect :
      (k : RetainedKey) (frame : Frame) (key name value : String)
      → lookup k (complete_resume read agent opens task journal d).1.retained ≡ some frame
      → frame.task ≡ some task
      → frame.kind ≡ effect key name value
      → key ≢ ""
      → let known = effect_keys journal.effects in
        (added : List RecordedEffect) × ((complete_resume read agent opens task journal d).0.effects
          ≡ journal.effects ++ added)
        × All (λ e. contains e.key known ≡ false) added
        × ((contains key known ≡ true)
            ⊎ ((before after : List RecordedEffect) × (added
                  ≡ before ++ record { key = key; name = name; value = value } ∷ after)))
  unfolding complete_resume
  resume_has_effect k frame key name value h t s z =
      let known = effect_keys journal.effects in
      let retained = (open_store read agent opens d).retained in
      (
        held_effects task known retained,
        refl,
        held_effects-unknown task known retained,
        elim (Bool-cases (contains key known)) [
          | inl there ↦ inl there
          | inr new ↦
              inr (held_effects-lists task known k frame key name value retained h t s z new)
        ],
      )

  -- The last step that the task resumes with is at least the server's, and at least the step of every
  -- frame of the task that is still retained, so no step is numbered twice.
  pub resume_counts_steps :
      (k : RetainedKey) (frame : Frame) (n : ℕ)
      → lookup k (complete_resume read agent opens task journal d).1.retained ≡ some frame
      → frame.task ≡ some task
      → frame.task_step ≡ some n
      → let resumed = (complete_resume read agent opens task journal d).0 in
        (journal.last_step ≤ resumed.last_step) × (n ≤ resumed.last_step)
  unfolding complete_resume
  resume_counts_steps k frame n h t s =
      let retained = (open_store read agent opens d).retained in
      let top = max_of-bounds journal.last_step (held_steps task retained) in
      (
        top.0,
        elim (Bool-cases (n == 0)) [
          | inl e ↦ ground (arith, nat_eq.beq_iff n 0)
          | inr e ↦ top.1 n (
              contains-held_steps task k frame n retained h t s
                (λ z. ground (arith, nat_eq.beq_iff n 0)))
        ],
      )
