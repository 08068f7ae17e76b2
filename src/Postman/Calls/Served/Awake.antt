-- ===== src/Postman/Calls/Served/Awake.antt =====
-- What can still wake a call that waits, whatever happens.
use rekuest.Prelude.{ℕ, refl, inl, inr, String, Bool, false, [], Bool-cases, string_eq}
use rekuest.Prelude.Dict.{lookup_refl}
use rekuest.Postman.{GraphqlPostman, open_call, is_root_call}
use rekuest.Postman.Calls.{AssignCall, begin_call, assign_input, close_call}
use rekuest.Postman.Calls.Keeps.Events.{catch_up_safely-KeepsAll}
use rekuest.Postman.Calls.Served.{
  Serving, after, Step, answered, read_returns, gets, asks_next, closes, reads_again, feed_changes,
  feed_dies, other_opens, other_is_bound, other_reads, other_reads_on, other_takes, other_ends,
  Reach, begins, then_, IsServed,
}
use rekuest.Postman.Calls.Served.Kept.{
  over-IsServed, KeepsAll-IsServed, feed_changes-IsServed, feed_dies-IsServed, other_takes-IsServed,
  other_opens-IsServed, other_is_bound-IsServed, other_reads_on-IsServed, other_ends-IsServed,
}
use rekuest.Postman.Calls.Served.Own.{
  answered-IsServed, read_returns-IsServed, gets-IsServed, asks_next-IsServed, reads_again-IsServed,
}

module _ {P : Type 0} where
  begins-IsServed :
      {J : Type 0} (to_input : J → J) (cancel_timeout : ℕ) (connected : Bool) (fresh : String)
      (a : AssignCall J) (p : GraphqlPostman P)
      → IsServed (
          after false (
            (begin_call to_input cancel_timeout connected fresh a p).1,
            (begin_call to_input cancel_timeout connected fresh a p).2,
          ))
  unfolding begin_call open_call
  begins-IsServed to_input cancel_timeout connected fresh a p =
      elim (Bool-cases (is_root_call a.parent a.dependency a.method)) [
        | inr child ↦ rw child (over-IsServed _ refl)
        | inl root ↦ elim (Bool-cases connected) [
          | inr never ↦ rw (root, never) (over-IsServed _ refl)
          | inl entered ↦
              rw (root, entered)
                (record {
                  has_queue = λ o. (
                    [],
                    lookup_refl (assign_input to_input fresh a).reference [] p.update_queues,
                    inr (refl, λ h. h),
                  );
                  bound = λ task o e. absurd (cc e);
                })
        ]
      ]

  Step-IsServed : {w w' : Serving P} → Step w w' → IsServed w → IsServed w'
  Step-IsServed {w} (answered live a at_) h = answered-IsServed live a w at_ h
  Step-IsServed {w} (read_returns task history at_) h = read_returns-IsServed task history w at_ h
  Step-IsServed {w} (gets task at_) h = gets-IsServed task w at_ h
  Step-IsServed {w} (asks_next task at_) h = asks_next-IsServed task w at_ h
  Step-IsServed {w} (closes task at_) h = unfold close_call in over-IsServed _ refl
  Step-IsServed {w} (reads_again task history on) h = reads_again-IsServed task history w h
  Step-IsServed {w} (feed_changes histories c apart) h = feed_changes-IsServed histories c w apart h
  Step-IsServed {w} (feed_dies reason) h = feed_dies-IsServed reason w h
  Step-IsServed {w} (other_opens r differs) h = other_opens-IsServed r w differs h
  Step-IsServed {w} (other_is_bound t r r_other t_other) h =
      other_is_bound-IsServed t r w r_other t_other h
  Step-IsServed {w} (other_reads t history) h =
      KeepsAll-IsServed w _ (catch_up_safely-KeepsAll w.call.reference t history w.postman) h
  Step-IsServed {w} (other_reads_on r) h = other_reads_on-IsServed _ w h
  Step-IsServed {w} (other_takes r rest differs) h =
      other_takes-IsServed r rest w.postman.watching w differs (λ e. e) h
  Step-IsServed {w} (other_ends r differs apart) h = other_ends-IsServed r w differs apart h

  pub Reach-IsServed :
      {J : Type 0} {to_input : J → J} {cancel_timeout : ℕ} {w : Serving P}
      → Reach to_input cancel_timeout w
      → IsServed w
  Reach-IsServed (begins connected fresh a p) = begins-IsServed _ _ connected fresh a p
  Reach-IsServed (then_ r s) = Step-IsServed s (Reach-IsServed r)
