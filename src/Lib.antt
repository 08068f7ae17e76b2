-- ===== src/Lib.antt =====
-- Verification of rekuest, the client side of a task server: an agent that keeps what it has to say
-- until the server has acknowledged it, over a socket that may drop, and two postmen that call tasks.
--
-- Parts and files, with the code that each is about (paths from the repository's root):
--   Retention: rekuest/agents/retention.py. `Tables` are the two SQLite tables, each a dictionary from
--     its primary key; `open_session`, `add`, `ack`, `prune` and `load` are the class's methods.
--     Retention/Load is about the selection and its order, Retention/Acks about the writes, and
--     Retention/Contents about files that hold the same rows in another order:
--     in Retention/Contents/Abstract such files are one state, a quotient.
--   Agent: rekuest/agents/agent.py, the delivery side. `retain` is `_retain_emitted`, `journal_ack`
--     `_journal_ack`, `open_store` `_open_store`, `resend_order` `_resend_order`. Agent/Kept and
--     Agent/Restart relate memory to the file over a history of steps in which writes succeed, and
--     Agent/Durable over one in which they may fail; Agent/Resume is `_complete_resume`, Agent/Init is
--     the transport's part of `_aafter_init`. Agent/Delivered puts the retained frames and the channel
--     of Transport together, as one running agent. Agent/Inbound is `_aprocess_runtime_message`,
--     `_areply_to_inquiries` and `_arun_after_registration`: Alive is about the inquiries, FollowUp
--     about the follow-up. What the base agent does with a message is a parameter.
--   PersistedState: rekuest/agents/persisted_state.py and the methods of agent.py that write states.
--     PersistedState/Saved is about changes and flushes, PersistedState/Closed about a clean exit,
--     PersistedState/Reopened about the process after it.
--   Transport: rekuest/agents/transport/websocket.py. Channel has the send queue, the held frame and
--     the sender task as steps; Policy the retry policy and the close codes; Loop the connection loop;
--     Inbound the receiver's queue from `aconnect` to the end of `areceive`; Closing has `aflush` and
--     `adisconnect`.
--   Caller: rekuest/agents/caller.py, the postman over the socket. Caller/Arrivals is about mirrors
--     that overtake answers, Caller/Stream about replays, Caller/Keys about derived call keys,
--     Caller/Cancel about the wait for the end of a cancelled call. Caller/Calls is `_astream` as one
--     resumption of the coroutine after the other: Handed and Runs are about what a call hands on
--     among other calls, Over about how it ends. Caller/Requests is what `aassign` and `aprobe` do
--     before, and the end of `astate_revision`.
--   Postman: rekuest/client/postman.py, the postman over GraphQL. Postman/Routing is about binding
--     and routing, Postman/CatchUp about reading a task's history, Postman/Ordered about the order in
--     which a call gets its events from reads and the feed, Postman/Ends about a lost feed,
--     Postman/Cancel about a call that is cancelled. Postman/Calls is `aassign` as one resumption of
--     the coroutine after the other: Served is about what can still wake a call that waits, with what other
--     operations leave of it in Keeps, and Over about how a call ends.
--   Client: rekuest/client/client.py; Client/Action: rekuest/traits/action.py. Client/Roots lists the
--     forms of a root call, which Client/Refused is about.
--   Scalars: rekuest/scalars.py, identifiers and search queries.
--   Upload: rekuest/client/upload/assets.py; Upload/Link: rekuest/client/upload/link.py, of which
--     Upload/Link/Uploaded compares the nested values with a flat list. Upload/Files:
--     rekuest/client/upload/media.py and the link's methods; Upload/Files/Stored is about where the
--     bytes are when an operation goes on.
--   Prelude: shared lists, dictionaries in insertion order, and orders on texts and keys.
--
-- The agent keeps its frames in a store of Retention and sends them on a channel of Transport; the
-- loop of Transport decides how a receiver's session in Inbound ends.
--
-- Choices. Times, positions and revisions are natural numbers; the code compares and copies them, and
-- measures differences of a clock that does not go back. Python's integers have no bound, so none is
-- written. A dictionary is an association list whose first entry of a key counts. A failing write of a
-- store is an argument (`Written`, or a Boolean), since the code logs it and goes on. Frames and JSON
-- values go through parameters: `read` and `dump` for frames, of which Agent/Restart assumes that a
-- frame which is written reads back as itself. The connection loop runs on a script of attempts that
-- says what the socket did and what the clock said, and waits for events of a queue run on a script of
-- arrival times; there is no fuel, as every recursion is on such a script or on data.
--
-- Not modelled: the GraphQL operations (generated), HTTP, TLS and files, the actors and the base agent
-- (another package), the wiring of an app, and logging. A blocking call of the client is taken to run
-- in the context of its caller, as the koil package promises.
pub mod Prelude
pub mod Retention
pub mod PersistedState
pub mod Transport
pub mod Caller
pub mod Agent
pub mod Postman
pub mod Scalars
pub mod Upload
pub mod Client
