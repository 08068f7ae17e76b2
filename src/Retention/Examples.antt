-- ===== src/Retention/Examples.antt =====
-- Two sessions of one agent, the first of them acknowledged in part, and another agent's frame.
use rekuest.Prelude.{◌≡◌, refl, arith, some, [], ◌∷◌, pair_eq, string_eq, nat_eq}
use mathlib.Core.Quot
use rekuest.Prelude.Dict.{lookup}
use rekuest.Retention.{Tables, prune, load, rows}
use rekuest.Retention.Contents.{HasPrimaryKeys, SameContents, adds, acks, execute_all}
use rekuest.Retention.Contents.Abstract.{execute_contents, two_acks, writes_commute}
use rekuest.Retention.Contents.Decides.{contents_decide}
use rekuest.Retention.Load.{lookup-rows, load-prune}

abbrev two_sessions : Tables
two_sessions = record {
  journal =
      (("a", ("s2", 1)), "g1")
      ∷ (("a", ("s1", 3)), "f3")
      ∷ (("a", ("s1", 2)), "f2")
      ∷ (("b", ("s1", 2)), "h2")
      ∷ [];
  journal_sync =
      (("a", "s1"), record { created_at = 1; acked_pos = 1 })
      ∷ (("a", "s2"), record { created_at = 2; acked_pos = 0 })
      ∷ (("a", "s0"), record { created_at = 0; acked_pos = 4 })
      ∷ [];
}

lookup-rows_example : lookup ("s1", 2) (rows "a" two_sessions) ≡ some "f2"
unfolding lookup
lookup-rows_example = lookup-rows "a" two_sessions "s1" 2

load-prune_example : load "a" (prune "a" (some "s2") two_sessions) ≡ load "a" two_sessions
load-prune_example = load-prune "a" (some "s2") two_sessions

-- The same two rows, in two orders
abbrev in_order : Tables
in_order = record {
  journal = (("a", ("s", 1)), "f1") ∷ (("a", ("s", 2)), "f2") ∷ [];
  journal_sync = (("a", "s"), record { created_at = 1; acked_pos = 0 }) ∷ [];
}

abbrev swapped : Tables
swapped = record {
  journal = (("a", ("s", 2)), "f2") ∷ (("a", ("s", 1)), "f1") ∷ [];
  journal_sync = (("a", "s"), record { created_at = 1; acked_pos = 0 }) ∷ [];
}

keys_in_order : HasPrimaryKeys in_order
unfolding lookup
keys_in_order = record { of_journal = (refl, (refl, tt)); of_sync = (refl, tt) }

keys_swapped : HasPrimaryKeys swapped
unfolding lookup
keys_swapped = record { of_journal = (refl, (refl, tt)); of_sync = (refl, tt) }

same_rows : SameContents in_order swapped
unfolding lookup
same_rows = record { journal = λ (a, (s, p)). ground arith; sync = λ k. refl }

contents_decide_example :
    load "a" (execute_all "a" (adds "s" 3 "f3" ∷ acks "s" 1 ∷ []) in_order)
    ≡ load "a" (execute_all "a" (adds "s" 3 "f3" ∷ acks "s" 1 ∷ []) swapped)
contents_decide_example =
    contents_decide "a" (adds "s" 3 "f3" ∷ acks "s" 1 ∷ []) in_order swapped keys_in_order
      keys_swapped same_rows

-- Two acknowledgements of one session, the later position first
writes_commute_example :
    execute_contents "a"
      (acks "s" 2)
      (execute_contents "a" (acks "s" 1) (Quot.mk (in_order, keys_in_order)))
    ≡ execute_contents "a"
        (acks "s" 1)
        (execute_contents "a" (acks "s" 2) (Quot.mk (in_order, keys_in_order)))
writes_commute_example =
    writes_commute "a" (acks "s" 2) (acks "s" 1) (Quot.mk (in_order, keys_in_order)) two_acks
