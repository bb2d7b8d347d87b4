-- ===== src/Lib.antt =====
-- Fomalhaut, a login greeter and session locker: models of its crates, and what is proved of them.
--
-- The program. A trusted host runs a web theme. The theme never sees secrets of the system: it
-- answers prompts of one authentication conversation. Two backends drive that conversation: the
-- greeter's over greetd's IPC, and the locker's over a PAM worker process of its own.
--
-- Core (crates/fomalhaut-core/src). Core/Types.antt has the types of state.rs, event.rs, error.rs,
--   identity.rs and session.rs. Core/Conversation.antt is conversation.rs: the record
--   `AuthConversation`, and one function for each method on `&mut self`, which returns the new record
--   and the method's result. The methods `authenticated`, `cancelled` and `authentication_failed` are
--   `authenticate`, `complete_cancel` and `reject`. Core/Conversation/Steps.antt runs any sequence of
--   them.
-- Greetd (crates/fomalhaut-greetd/src). Greetd/Client.antt is client.rs: `GreeterClient`, its calls,
--   and the loop `drive`, whose body is `react`. The transport is an input: the list of the replies
--   that greetd will give, beside the requests sent so far. `drive` recurs on that list, so it needs
--   no fuel; a loop that has used the list up is waiting. Greetd/Client/Calls.antt runs any sequence of
--   calls, each with its replies.
-- Pam (crates/fomalhaut-pam/src). Pam/Ipc.antt is ipc.rs, the framed protocol between the locker and
--   its worker, over byte lists; Pam/Bytes.antt is what it uses of the standard library, with a reader
--   that may end in any I/O error and a writer that may run out of room. Pam/Transport.antt and
--   Pam/Backend.antt are backend.rs: `PamReauthBackend` over a worker that is the list of what it will
--   say. `drive_worker` runs on fuel 129. Each round counts one frame, and the round that counts the
--   129th returns, so the fuel is never used up. Pam/Worker.antt is worker.rs, the other end of the
--   channel: `WorkerConversation`, and a PAM call as the tree of the prompts and messages that it
--   hands to the conversation, whose branches are the answers. Pam/Identity.antt is the parsers of
--   identity.rs.
-- Session (crates/fomalhaut-session/src). Session/Exec.antt is exec.rs: the loop of `parse_exec` recurs
--   on the characters, with a counter of those that its last round has taken from the iterator.
--   Session/Catalog.antt is model.rs and error.rs. Session/Entry.antt and Session/Discovery.antt are
--   discovery.rs: `load_entry` over the values of a parsed desktop file, and `discover` over the
--   contents of each directory, both as inputs. Session/Texts.antt is what they use of the standard
--   library: a `BTreeMap` is the list of its entries in the order of the keys.
-- Web (crates/fomalhaut-web/src). Web/Protocol.antt and Web/Messages.antt are the values, limits,
--   requests, responses and snapshots of protocol/message.rs, protocol/request.rs, protocol/error.rs and
--   protocol/value.rs. The rest is controller.rs. Web/Public.antt is `AuthPublicState`, which turns core
--   events into what a theme sees. Web/Client.antt has the traits of crates/fomalhaut-core/src/backend.rs
--   as records of operations over a state, and the methods of `AuthPublicState` that call them: its
--   loops recur on the number of events that are there to be consumed, which every consumed event
--   makes smaller. Web/Locker.antt and Web/Greeter.antt are the two controllers, one function for each
--   method, and their requests; Web/Client/Rules.antt, Web/Locker/Rules.antt and Web/Greeter/Rules.antt
--   are how a property is carried over them. Pam/Backend/Reauth.antt makes the PAM backend one of the
--   locker's. Web/Decode.antt is the decoding of requests in protocol/request.rs, over the crate
--   serde_json, which is the record `Json` of what each type is read from.
-- Lock (crates/fomalhaut-lock/src). Lock/Worker.antt is controller_worker.rs: what its loop owns, and the
--   channels of the views and of the host, each the list of what its sends will give. Its commands are
--   Lock/Worker/Commands.antt, and its start is Lock/Worker/Start.antt.
--   Lock/Handle.antt is the handle of the worker and those of the views, over one queue.
-- Greeter (crates/fomalhaut/src). Greeter/Worker.antt is controller_worker.rs, the thread that owns the
--   greeter controller.
-- User (crates/fomalhaut-user/src). User/Directory.antt is the password database, the choice between the
--   sources and the users that are shown, and User/Accounts.antt what is made of the answers of
--   AccountsService and of login.defs. An avatar stands for its address.
-- Common has results, tests and lists; Examples has the theorems at concrete inputs.
--
-- Strings are lists of numbers: UTF-8 bytes in Core, Greetd, Pam, User and Web, characters in Session,
-- where a file name is still its bytes, and in login.defs. Words of 64 bits are natural numbers, with the
-- source's overflow checks written out.
--
-- Not modelled: the clearing of memory (zeroize, Drop), Display and Debug; processes, pipes, threads,
-- time-outs and sockets, which enter as lists of what they will deliver; the crates greetd_ipc,
-- pam_client and freedesktop_desktop_entry; the reading of /proc/self/status and the run of getent;
-- GTK and D-Bus; configuration; the JSON codec; themes and assets; the handle of
-- the greeter's worker.
pub mod Common
pub mod Core
pub mod Greetd
pub mod Pam
pub mod Session
pub mod Web
pub mod Lock
pub mod User
pub mod Greeter
pub mod Examples
