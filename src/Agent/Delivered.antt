-- ===== src/Agent/Delivered.antt =====
-- The agent and its transport together: whatever is retained is on its way on every connection that
-- has handled its `Init`.
pub mod Covered
mod Examples
use rekuest.Prelude.{
  ℕ, ◌≡◌, ◌≢◌, refl, sym, ap, ◌∙◌, inl, inr, String, Bool, true, false, not, ◌&&◌, ◌||◌, Option,
  none, some, List, [], ◌∷◌, ◌++◌, append-nil, append_assoc, map, arith, leb, ◌==◌, if◌then◌else◌,
  contains, contains-append, keep, Bool-cases, Option-cases, string_eq, nat_eq, pair_eq,
}
use rekuest.Prelude.Dict.{lookup, insert, has, keep_keys, lookup-insert, lookup-keep_keys}
use rekuest.Retention
use rekuest.Retention.{Tables, StoredFrame, no_tables}
use rekuest.Transport.Channel.{
  Channel, entered, asend, start_sending, stop_sending, take_frame, frame_sent, release_sends,
}
use rekuest.Transport.Channel.Sound.{
  pending, history, IsSound, entered-IsSound, asend-IsSound, start_sending-IsSound,
  stop_sending-IsSound, take_frame-IsSound, frame_sent-IsSound, history-asend, history-stop_sending,
  history-take_frame, history-frame_sent,
}
use rekuest.Transport.Channel.Discard.{fresh, discard_journaled_lem}
use rekuest.Agent.{
  Frame, RetainedKey, Store, on_disk, in_memory, restore, Delivery, Written, acked, process_on,
  open_store, know_session, retain, journal_ack, frames_at, retained_frames, resend_order,
  write_tables, tables_of,
}
use rekuest.Agent.Retained.{resend_order_lem}
use rekuest.Agent.Init.{after_init, after_init_lem, after_init-IsSound}

-- A running agent. `before` is what the wire had when the live connection started.
pub record Host : Type 0 where
  pub delivery : Delivery Frame
  pub channel : Channel
  pub before : List String

module _ (read : String → Option Frame) (dump : Frame → String) (journaled : String → Bool)
    (agent : String) where
  pub data Step : Host → Host → Type 0 where
    -- The base agent, another package, hands a numbered frame to `_retain_emitted` and to `asend`.
    emits :
        (written : Written) (opens : Bool) (now : ℕ) (session : String) (pos : ℕ) (frame : Frame)
        (h : Host)
        → Step h (record h {
          delivery = retain read dump agent written opens now session pos frame h.delivery;
          channel = asend (dump frame) h.channel;
        })
    says : (text : String) (h : Host) → Step h (record h { channel = asend text h.channel })
    acks :
        (written : Written) (opens : Bool) (current session : String) (pos : ℕ) (h : Host)
        → Step h (record h {
          delivery = journal_ack read agent written opens current session pos h.delivery;
        })
    -- The last connection's sender is stopped before the next one starts, which holds its sends.
    connects :
        (h : Host)
        → Step h (record h {
          channel = start_sending true (stop_sending h.channel);
          before = h.channel.wire;
        })
    -- The first `Init` of a connection
    handles_init :
        (h : Host)
        → h.channel.released ≡ some false
        → Step h (record h { channel = after_init journaled dump h.delivery h.channel })
    takes : (h : Host) → Step h (record h { channel = take_frame h.channel })
    sends : (h : Host) → Step h (record h { channel = frame_sent h.channel })
    stops : (h : Host) → Step h (record h { channel = stop_sending h.channel })

  -- From a process that has opened its store, and entered its transport
  pub data Reach : Host → Type 0 where
    starts :
        (opens : Bool) (file : Tables)
        → Reach (record {
          delivery = open_store read agent opens (process_on file);
          channel = entered;
          before = [];
        })
    then_ : {h h' : Host} → Reach h → Step h h' → Reach h'

-- What an agent that has opened its store retains after `retain` and after `journal_ack`, whichever
-- writes fail.
module _ (read : String → Option Frame) (dump : Frame → String) (agent : String) where
  pub lookup-retain :
      (written : Written) (opens : Bool) (now : ℕ) (session : String) (pos : ℕ) (frame : Frame)
      (d : Delivery Frame) (s : String) (p : ℕ)
      → d.store ≢ none
      → (lookup (s, p) (retain read dump agent written opens now session pos frame d).retained
          ≡ (if (session == s) && nat_eq.beq pos p then some frame else lookup (s, p) d.retained))
        × ((retain read dump agent written opens now session pos frame d).store ≢ none)
  unfolding retain know_session open_store write_tables
  lookup-retain written opens now session pos frame d s p o =
      (ground (arith, lookup-insert (session, pos) (s, p) frame d.retained), λ e. ground arith)

  pub lookup-journal_ack :
      (written : Written) (opens : Bool) (current session : String) (pos : ℕ) (d : Delivery Frame)
      (s : String) (p : ℕ)
      → d.store ≢ none
      → (lookup (s, p) (journal_ack read agent written opens current session pos d).retained
          ≡ (if (s == session) && leb p pos then none else lookup (s, p) d.retained))
        × ((journal_ack read agent written opens current session pos d).store ≢ none)
  unfolding journal_ack open_store write_tables acked
  lookup-journal_ack written opens current session pos d s p o = (
    ground (arith, lookup-keep_keys (λ k. not (acked session pos k)) (s, p) d.retained),
    λ e. ground arith,
  )

  store-restore :
      (stored : List StoredFrame) (d : Delivery Frame)
      → (restore read agent stored d).store ≡ d.store
  unfolding restore
  store-restore [] d = refl
  store-restore (one ∷ stored) d = elim (Option-cases (read one.frame)) [
    | inl e ↦ rw (e, restore) (store-restore stored d)
    | inr (frame, e) ↦ rw (e, restore) (store-restore stored _)
  ]

  pub open_store-opened :
      (opens : Bool) (d : Delivery Frame) → (open_store read agent opens d).store ≢ none
  unfolding open_store
  open_store-opened opens d e = elim (Option-cases d.store) [
    | inl closed ↦
        let opened : Delivery Frame = record d {
          store = some (if opens then on_disk else in_memory no_tables);
        } in
        ground (arith, store-restore (Retention.load agent (tables_of opened)) opened)
    | inr (s, open_) ↦ ground arith
  ]

contains-frames_at :
    (dump : Frame → String) (k : RetainedKey) (frame : Frame) (d : Delivery Frame)
    (ks : List RetainedKey)
    → lookup k d.retained ≡ some frame
    → contains k ks ≡ true
    → contains (dump frame) (map dump (frames_at d.retained ks)) ≡ true
unfolding frames_at
contains-frames_at dump k frame d [] h c = cc
contains-frames_at dump (s, p) frame d ((t, q) ∷ ks) h c =
    elim (Bool-cases ((t == s) && nat_eq.beq q p)) [
      | inl e ↦ ground (
        arith,
        string_eq.beq_iff t s,
        nat_eq.beq_iff q p,
        string_eq.beq_iff (dump frame) (dump frame),
      )
      | inr e ↦ ground (arith, contains-frames_at dump (s, p) frame d ks h)
    ]

-- Every retained frame is among what is resent.
pub contains-retained_frames :
    (dump : Frame → String) (k : RetainedKey) (frame : Frame) (d : Delivery Frame)
    → lookup k d.retained ≡ some frame
    → contains (dump frame) (map dump (retained_frames d)) ≡ true
unfolding retained_frames
contains-retained_frames dump k frame d h =
    contains-frames_at dump k frame d (resend_order d) h ((resend_order_lem d).1 k ∙ ground arith)
