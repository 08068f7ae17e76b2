-- ===== src/Transport/Inbound/Session.antt =====
-- What the receiver of a session is given.
use rekuest.Prelude.{
  ◌≡◌, ◌≢◌, refl, sym, ap, ◌∙◌, String, Bool, Option, none, true, false, some, List, [], ◌∷◌, ◌++◌,
  append-nil, append_assoc, arith, string_eq,
}
use rekuest.Transport.Policy.{cancelled}
use rekuest.Transport.Loop.{Verdict, connecting, stopped, failed}
use rekuest.Transport.Inbound.{
  Inbound, not_json, not_an_object, heartbeat, bounce, unreadable, kick, message, heartbeat_event,
  Item, received, Inbox, outcome_of, refuse_unreadable_assign, handle_inbound, receive_frames,
  receive_session, aconnect, farewell, connection_loop_ends, areceive, delivered, all_delivered,
}

module _ {M : Type 0} where
  abbrev received_all : List M → List (Item M)
  received_all [] = []
  received_all (m ∷ ms) = received m ∷ received_all ms

  received_all-append :
      (xs ys : List M) → received_all (xs ++ ys) ≡ received_all xs ++ received_all ys
  received_all-append [] ys = refl
  received_all-append (x ∷ xs) ys = ap (◌∷◌ (received x)) (received_all-append xs ys)

  areceive-received_all :
      (ms : List M) (rest : List (Item M))
      → areceive (received_all ms ++ rest) ≡ (ms ++ (areceive rest).0, (areceive rest).1)
  unfolding areceive
  areceive-received_all [] rest = refl
  areceive-received_all (m ∷ ms) rest = ground (arith, areceive-received_all ms rest)

  areceive-farewell :
      (verdict : Verdict) → areceive {M = M} (farewell verdict) ≡ ([], outcome_of verdict)
  unfolding areceive
  areceive-farewell connecting = refl
  areceive-farewell stopped = refl
  areceive-farewell (failed cancelled) = refl
  areceive-farewell (failed _) = refl

  in_queue-connection_loop_ends :
      (verdict : Verdict) (box : Inbox M)
      → (connection_loop_ends verdict box).in_queue ≡ box.in_queue ++ farewell verdict
  unfolding connection_loop_ends
  in_queue-connection_loop_ends connecting box = sym (append-nil box.in_queue)
  in_queue-connection_loop_ends stopped box = refl
  in_queue-connection_loop_ends (failed f) box = refl

module _ (assign : String) {M : Type 0} where
  in_queue-receive_frames :
      (frames : List (Inbound M)) (box : Inbox M)
      → (receive_frames assign frames box).0.in_queue
        ≡ box.in_queue ++ received_all (delivered frames)
  unfolding receive_frames handle_inbound
  in_queue-receive_frames [] box = sym (append-nil box.in_queue)
  in_queue-receive_frames (bounce ∷ rest) box = sym (append-nil box.in_queue)
  in_queue-receive_frames (kick reason ∷ rest) box = sym (append-nil box.in_queue)
  in_queue-receive_frames (message m ∷ rest) box =
      in_queue-receive_frames rest (record box { in_queue = box.in_queue ++ received m ∷ [] })
      ∙ append_assoc box.in_queue (received m ∷ []) (received_all (delivered rest))
  in_queue-receive_frames (not_json ∷ rest) box = in_queue-receive_frames rest box
  in_queue-receive_frames (not_an_object ∷ rest) box = in_queue-receive_frames rest box
  in_queue-receive_frames (heartbeat ∷ rest) box =
      in_queue-receive_frames rest (record box { replies = box.replies ++ heartbeat_event ∷ [] })
  in_queue-receive_frames (unreadable raw n ∷ rest) box =
      in_queue-receive_frames rest
        (record box { replies = box.replies ++ refuse_unreadable_assign assign raw n })

  in_queue-receive_session :
      (sessions : List (List (Inbound M))) (box : Inbox M)
      → (receive_session assign sessions box).in_queue
        ≡ box.in_queue ++ received_all (all_delivered sessions)
  unfolding receive_session
  in_queue-receive_session [] box = sym (append-nil box.in_queue)
  in_queue-receive_session (frames ∷ rest) box =
      in_queue-receive_session rest (receive_frames assign frames box).0
      ∙ ap (λ q. q ++ received_all (all_delivered rest)) (in_queue-receive_frames frames box)
      ∙ append_assoc box.in_queue (received_all (delivered frames))
          (received_all (all_delivered rest))
      ∙ ap (λ q. box.in_queue ++ q)
          (sym (received_all-append (delivered frames) (all_delivered rest)))

  -- Where no connection task runs, be it that there is none, as after a disconnect, or that the last one
  -- has ended, a new session receives exactly its own messages, those
  -- of all its connections in order, whatever the last session left in the queue; it then ends as
  -- the connection loop did: it returns after a disconnect or a cancellation, and raises any other failure.
  pub session_lem :
      (sessions : List (List (Inbound M))) (verdict : Verdict) (box : Inbox M)
      → box.connection_task ≢ some false
      → areceive
          (connection_loop_ends verdict (receive_session assign sessions (aconnect box))).in_queue
        ≡ (all_delivered sessions, outcome_of verdict)
  unfolding aconnect
  session_lem sessions verdict box h =
      ap areceive (
        in_queue-connection_loop_ends verdict (receive_session assign sessions (aconnect box))
        ∙ ap (λ q. q ++ farewell verdict)
            (in_queue-receive_session sessions (aconnect box)
              ∙ ap (λ q. q ++ received_all (all_delivered sessions)) emptied))
      ∙ areceive-received_all (all_delivered sessions) (farewell verdict)
      ∙ ap (λ r. (all_delivered sessions ++ r.0, r.1)) (areceive-farewell verdict)
      ∙ ap (λ ms. (ms, outcome_of verdict)) (append-nil (all_delivered sessions))
    where
      no_task : (o : Option Bool) → box.connection_task ≡ o → (aconnect box).in_queue ≡ []
      no_task none e = ground (arith, e)
      no_task (some true) e = ground (arith, e)
      no_task (some false) e = absurd (h e)

      emptied : (aconnect box).in_queue ≡ []
      emptied = no_task box.connection_task refl
