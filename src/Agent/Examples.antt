-- ===== src/Agent/Examples.antt =====
-- An agent that emits two frames of one session and one of another, and is acknowledged in part.
use rekuest.Prelude.{
  ◌⊎◌, false, All, ◌++◌, List, ℕ, ◌≤◌, ◌<◌, ◌≡◌, refl, Bool, none, some, [], ◌∷◌, ◌++◌, String,
  true, false, arith, map, keep, contains, inl, ◌==◌, string_eq, nat_eq, pair_eq,
}
use rekuest.Prelude.Dict.{lookup, insert}
use rekuest.Prelude.Order.{IsOrdered, key_le}
use rekuest.Retention
use rekuest.Prelude.Order
use rekuest.Retention.{no_tables, acked_pos_of, open_session, add}
use rekuest.Transport.Channel.{Channel, entered}
use rekuest.Transport.Channel.Sound.{pending}
use rekuest.Transport.Channel.Discard.{fresh}
use rekuest.Agent.{
  Frame, effect, Delivery, on_disk, both_written, process_on, open_store, retain, know_session,
  write_tables, tables_of, restore, journal_ack, retained_frames,
}
use rekuest.Agent.Restart.{Reach, first_run, then_, emits, restart_keeps_all, ack_frees_exactly}
use rekuest.Agent.Resume.{
  RecordedEffect, ResumeJournal, complete_resume, resume_has_effect, resume_counts_steps,
}
use rekuest.Agent.Init.{after_init, after_init_lem}

-- Frames that are their own text.
abbrev started : Delivery String
started = open_store some "a" true (process_on no_tables)

abbrev emitted : ℕ → String → ℕ → String → Delivery String → Delivery String
emitted now session pos frame d = retain some (λ f. f) "a" both_written true now session pos frame d

abbrev two_frames : Delivery String
two_frames = emitted 2 "s1" 2 "f2" (emitted 1 "s1" 1 "f1" started)

abbrev Reached : Delivery String → Type 0
Reached = Reach some (λ f. f) (λ f. refl) "a"

two_frames-Reached : Reached two_frames
unfolding Retention.load Order.sort
two_frames-Reached =
    then_ (then_ first_run (emits 1 "s1" 1 "f1" started fresh_1))
      (emits 2 "s1" 2 "f2" (emitted 1 "s1" 1 "f1" started) fresh_2)
  where
    fresh_1 : acked_pos_of (lookup ("a", "s1") started.file.journal_sync) < 1
    fresh_1 = unfold open_store process_on lookup in omega arith

    fresh_2 :
        acked_pos_of (lookup ("a", "s1") (emitted 1 "s1" 1 "f1" started).file.journal_sync) < 2
    fresh_2 =
        unfold open_store process_on retain know_session open_session add write_tables tables_of
          restore lookup insert in
        omega arith

restart_keeps_all_example :
    lookup ("s1", 2) (open_store some "a" true (process_on two_frames.file)).retained
    ≡ lookup ("s1", 2) two_frames.retained
restart_keeps_all_example =
    restart_keeps_all some (λ f. f) (λ f. refl) "a" two_frames-Reached "s1" 2

ack_frees_exactly_example :
    let d = journal_ack some "a" both_written true "s1" "s1" 1 two_frames in
    (lookup ("s1", 1) d.retained ≡ none)
    × (lookup ("s1", 1) (open_store some "a" true (process_on d.file)).retained ≡ none)
ack_frees_exactly_example =
    ack_frees_exactly some (λ f. f) (λ f. refl) "a" two_frames-Reached "s1" "s1" 1 "s1" 1

-- Two sessions, the younger one first in memory.
abbrev two_sessions : Delivery String
two_sessions = record {
  retained = (("s2", 1), "g1") ∷ (("s1", 2), "f2") ∷ (("s1", 1), "f1") ∷ [];
  session_created = ("s1", 5) ∷ ("s2", 9) ∷ [];
  file = no_tables;
  store = some on_disk;
}

-- A task's recorded effect that never reached the server.
abbrev clock_read : Frame
clock_read = record {
  kind = effect "k2" "clock" "12:00";
  task = some "t";
  task_step = some 4;
  body = "{}";
}

abbrev one_effect : Delivery Frame
one_effect = record {
  retained = (("s1", 1), clock_read) ∷ [];
  session_created = ("s1", 5) ∷ [];
  file = no_tables;
  store = some on_disk;
}

abbrev from_server : ResumeJournal
from_server = record {
  effects = record { key = "k1"; name = "clock"; value = "11:00" } ∷ [];
  last_step = 3;
}

resume_has_effect_example :
    (added : List RecordedEffect) × ((complete_resume
        (λ text. none)
        "a"
        true
        "t"
        from_server
        one_effect).0.effects
      ≡ from_server.effects ++ added)
    × All (λ (e : RecordedEffect). contains e.key ("k1" ∷ []) ≡ false) added
    × ((contains {A = String} "k2" ("k1" ∷ []) ≡ true)
        ⊎ ((before after : List RecordedEffect) × (added
              ≡ before ++ record { key = "k2"; name = "clock"; value = "12:00" } ∷ after)))
unfolding complete_resume open_store lookup
resume_has_effect_example =
    resume_has_effect (λ text. none) "a" true "t" from_server one_effect ("s1", 1) clock_read "k2"
      "clock" "12:00" refl refl refl (λ e. absurd (cc e))

resume_counts_steps_example :
    let resumed = (complete_resume (λ text. none) "a" true "t" from_server one_effect).0 in
    (3 ≤ resumed.last_step) × (4 ≤ resumed.last_step)
unfolding complete_resume open_store lookup
resume_counts_steps_example =
    resume_counts_steps (λ text. none) "a" true "t" from_server one_effect ("s1", 1) clock_read 4
      refl refl refl

-- A connection on which a plain frame and a numbered one wait for `Init`.
abbrev is_numbered : String → Bool
is_numbered frame = frame == "{}"

abbrev held_back : Channel
held_back = record entered {
  send_queue = "{}" ∷ "u" ∷ [];
  unfinished = 2;
  released = some false;
  sending = true;
}

after_init_lem_example :
    let ch = after_init is_numbered (λ f. f.body) one_effect held_back in
    (pending ch
      ≡ keep (fresh is_numbered) ("{}" ∷ "u" ∷ [])
        ++ map (λ f. f.body) (retained_frames one_effect))
    × (ch.wire ≡ [])
    × (ch.released ≡ some true)
after_init_lem_example =
    after_init_lem is_numbered (λ f. f.body) one_effect held_back
      (record { one_out = inl refl; counted = refl; gated = λ e. refl }) refl
