-- ===== src/Transport/Closing.antt =====
-- `aflush`, `adisconnect` and `__aexit__` of rekuest/agents/transport/websocket.py.
use rekuest.Prelude.{
  ◌≡◌, refl, sym, ap, ◌∙◌, String, Bool, true, false, not, ◌||◌, List, [], ◌∷◌, ◌++◌, append-nil,
  arith, if◌then◌else◌, length, keep, nat_beq,
}
use rekuest.Transport.Channel.{Channel, Event, stop_sending, run, asked_frames}
use rekuest.Transport.Channel.Sound.{pending, history, IsSound}
use rekuest.Transport.Channel.Discard.{fresh, step-IsSound}
use rekuest.Transport.Channel.Order.{fresh-run}

-- `client` is whether `_client` is set, `connection_task` whether the task is.
pub record Link : Type 0 where
  pub channel : Channel
  pub client : Bool
  pub connection_task : Bool
  pub closing : Bool

-- Whether `aflush` is done: without a client at once, else when the queue counts nothing unfinished.
unfoldable pub flushed : Link → Bool
flushed link = not link.client || nat_beq link.channel.unfinished 0

-- `during` is what befalls the channel until `aflush` returns or its timeout is over. The connection
-- task ends by itself or is cancelled, and either way stops the sender.
unfoldable pub adisconnect : (String → Bool) → List Event → Link → Link
adisconnect journaled during link =
    let drained = if link.client then run journaled during link.channel else link.channel in
    record {
      channel = if link.connection_task then stop_sending drained else drained;
      client = false;
      connection_task = false;
      closing = true;
    }

-- Leaving the context of the transport
unfoldable pub aexit : (String → Bool) → List Event → Link → Link
unfolding adisconnect
aexit journaled during link =
    if link.connection_task || link.client then adisconnect journaled during link else link

nothing_pending : (xs : List String) → length xs ≡ 0 → xs ≡ []
nothing_pending [] h = refl
nothing_pending (x ∷ xs) h = absurd (omega arith)

run-IsSound :
    (journaled : String → Bool) (es : List Event) (ch : Channel)
    → IsSound ch
    → IsSound (run journaled es ch)
unfolding run
run-IsSound journaled [] ch s = s
run-IsSound journaled (e ∷ es) ch s = run-IsSound journaled es _ (step-IsSound journaled e ch s)

wire-adisconnect :
    (journaled : String → Bool) (during : List Event) (link : Link)
    → link.client ≡ true
    → (adisconnect journaled during link).channel.wire ≡ (run journaled during link.channel).wire
unfolding adisconnect stop_sending
wire-adisconnect journaled during link c = ground arith

-- When a transport that is connected is left and its flush ends in time, no frame without a position is
-- lost, repeated or overtaken by another: of these the wire has those of before and of the teardown
-- itself, in order, also if numbered frames are discarded meanwhile.
pub flushed_before_close :
    (journaled : String → Bool) (during : List Event) (link : Link)
    → IsSound link.channel
    → link.client ≡ true
    → flushed (record link { channel = run journaled during link.channel }) ≡ true
    → keep (fresh journaled) (aexit journaled during link).channel.wire
      ≡ keep (fresh journaled) (history link.channel ++ asked_frames during)
unfolding aexit flushed
flushed_before_close journaled during link s c done =
    let ended = run journaled during link.channel in
    let sound = run-IsSound journaled during link.channel s in
    let empty = nothing_pending (pending ended) (ground (arith, sound.counted)) in
    let on_wire : (aexit journaled during link).channel.wire ≡ history ended =
      ground (arith, wire-adisconnect journaled during link c)
      ∙ sym (append-nil ended.wire)
      ∙ ap (λ xs. ended.wire ++ xs) (sym empty) in
    ap (keep (fresh journaled)) on_wire ∙ fresh-run journaled during link.channel s
