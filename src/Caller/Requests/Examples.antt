-- ===== src/Caller/Requests/Examples.antt =====
-- A task that calls one target twice, with a call of another task in between.
use rekuest.Prelude.{ℕ, ◌≡◌, ◌≢◌, refl, none, some, List, [], ◌∷◌, String}
use rekuest.Caller.{AgentPostman, new_postman, forget_parent}
use rekuest.Caller.Requests.{AssignCall, derived, call_base, assign, assign_all}
use rekuest.Caller.Requests.ChildKeys.{child_keys_differ, child_key_counts}

-- The arguments are their own digest, and nothing is passed on.
abbrev calling : String → AssignCall String ℕ
calling parent = record {
  args = some "1a2b";
  reference = none;
  action = some "blur";
  action_hash = none;
  implementation = none;
  agent = none;
  interface = none;
  parent = some parent;
  dependency = none;
  method = none;
  resolution = none;
  call_key = none;
  passed_on = 0;
}

abbrev nobody : AgentPostman ℕ ℕ
nobody = new_postman

child_keys_differ_example :
    let (p, first) = assign (λ v. v) "{}" none "r1" (calling "t1") nobody in
    let later = assign_all (λ v. v) "{}" none (("r2", calling "t2") ∷ []) p in
    first.call_key ≢ (assign (λ v. v) "{}" none "r3" (calling "t1") later).1.call_key
child_keys_differ_example =
    child_keys_differ (λ v. v) "{}" none "r1" "r3" "t1" (calling "t1") (calling "t1")
      (("r2", calling "t2") ∷ []) nobody refl refl refl refl

child_key_counts_example :
    let before : List (String × AssignCall String ℕ) =
      ("r1", calling "t1") ∷ ("r2", calling "t2") ∷ [] in
    let later = assign_all (λ v. v) "{}" none before (forget_parent "t1" nobody) in
    (assign (λ v. v) "{}" none "r3" (calling "t1") later).1.call_key ≡ some (derived "blur:1a2b" 2)
unfolding call_base
child_key_counts_example =
    child_key_counts (λ v. v) "{}" none "r3" "t1" (calling "t1")
      (("r1", calling "t1") ∷ ("r2", calling "t2") ∷ []) nobody refl refl
