-- ===== src/Lib.antt =====
-- The authentication agent of noctalia: a daemon that collects requests for a password from polkit,
-- from the keyring and from pinentry, and lets one user interface answer them.
--
-- A client sends lines of JSON over a socket (src/core/ipc/IpcServer.cpp). CAgent (src/core/Agent.cpp)
-- dispatches each by its type to a handler. Requests of the keyring and of pinentry are kept by their
-- managers (src/core/managers), those of polkit by the listener (src/core/PolkitListener.cpp). Each
-- opens a session (src/core/Session.cpp) in the store (src/core/agent/SessionStore.cpp), whose events
-- go through the router to the active provider or the subscribers, and into the queue of events
-- (src/core/agent/EventRouter.cpp, EventQueue.cpp). Providers register with the registry
-- (src/core/agent/ProviderRegistry.cpp), which chooses the active one. An answer of the active
-- provider goes back to the socket that asked.
--
-- Files, and what they model:
--   Base             native numbers, integers, tables and lists; the Boolean tests
--   Json             QJsonObject as an ordered list of fields
--   Environment      a record of what the daemon reads from outside: clock, sockets, /proc, Qt's text
--                    functions; an argument of every definition that reads one of them
--   Session          Session.hpp, Session.cpp; Session/Events on the events
--   SessionStore     SessionStore.hpp, SessionStore.cpp
--   EventQueue       EventQueue.hpp, EventQueue.cpp; Bounds on what it holds, Drain on its
--                    waiters
--   EventRouter      EventRouter.hpp, EventRouter.cpp; Routing on who receives an event
--   ProviderRegistry ProviderRegistry.hpp, ProviderRegistry.cpp; Choice, Recompute, Authority
--   RequestContext   RequestContext.cpp without the functions that read files; Names and
--                    Requestor on who is shown
--   RequestTypes     RequestTypes.hpp and the records of the managers and the listener
--   KeyringManager   KeyringManager.cpp; Requests on the life of a request
--   PinentryManager  PinentryManager.cpp; Tables, Frames, Flows, Contract, Attempts, Retries
--   PolkitListener   PolkitListener.cpp, and the methods of CAgent that it calls; Attempts,
--                    Answers
--   Agent            the state of CAgent and its operations on sessions; Steps is the frame of
--                    its operations, Emit and Operations are about them, SessionMap is about the sessions
--   Handlers         the handlers of messages and MessageRouter::dispatch; Answers has
--                    handleRespond and handleCancel; Safety is the invariant; Managers,
--                    Polkit, Messages, Providers, Secrets and Cancel are about the handlers
--   Daemon           the start of CAgent and the events of Qt's loop; Dispatch and Runs on one and on
--                    many events
--   Text             QByteArray and QString as lists of bytes and of units of UTF-16
--   LineLoop         the loop over complete lines; Lines is about it
--   IpcServer        core/ipc/IpcServer.cpp; Frames, Bounds and Keeps are about its lines, its
--                    buffers and its owner. Daemon/Wire puts the daemon behind it
--   PinentryMode     modes/pinentry.cpp: the session and its requests; Codec has the codes of Assuan,
--                    Commands the commands and the run; Ledger, Flow, Endings, Settles, Replies and
--                    Verdict are about a run, Protocol and Delivery about the run and the daemon
--   FallbackClient   fallback/FallbackClient.cpp, with its messages in Messages; Connection, Retries
--                    and Buffer are about them
--   Prompt           fallback/prompt: Normalize, Extractors, Builder and Assembly are its files, with
--                    PromptModelBuilder.cpp in two; Equivalence, Unique, Terms and Hints are
--                    about them
--   FallbackWindow   fallback/FallbackWindow.cpp without its layout, with its events in Events; Answers
--                    and Races are about them
--   Examples         concrete values, on which the theorems are applied
--
-- The state of the daemon is the record Agent.Agent, which the handlers take and return; what the
-- daemon does to the outside is its list of effects, newest first. A socket is a number, 0 is the null
-- pointer; a session object of polkit is a number of its own; a state of the listener is named by its
-- cookie. A signal that a call emits before it returns is a call (session->cancel() in cancelPending).
-- Hash maps are association lists, so where Qt leaves the order of an iteration open, the order is that
-- of the list. Numbers of milliseconds are natural numbers, and a difference of two stops at 0. The
-- number of attempts and the priority are integers within 32 bits, as `toInt` returns them.
--
-- The pinentry, the fallback client and the prompts are other programs than the daemon. The pinentry's
-- session is a record with the requests it sent and the lines it wrote; the daemon's answer to a
-- request is a function of the requests so far. The client of the fallback window is a record with
-- what it emitted. A text in them that the code walks is a list of units.
--
-- The walk over parent processes has fuel 16, the bound of its own counter (hops < 16). The loop over
-- lines has one more than the length of its buffer as fuel, which each round shortens by a line and its
-- newline. Every other loop goes over a list that it consumes.
--
-- Not modelled: the reading of /proc, of desktop files and of the bootstrap's state, the parser and the
-- printer of JSON, logging, the wiping of buffers beyond the flag that asks for it, the widgets and
-- the layout of the fallback window (src/fallback/FallbackWindow.cpp), the blocking client of the modes
-- (src/common/IpcClient.cpp) but for what it returns, and the prompter in C (src/keyring-prompter):
-- they are widgets or input and output.
pub mod Base
pub mod Json
pub mod Text
pub mod LineLoop
pub mod Session
pub mod EventQueue
pub mod Environment
pub mod ProviderRegistry
pub mod SessionStore
pub mod RequestContext
pub mod RequestTypes
pub mod EventRouter
pub mod Agent
pub mod KeyringManager
pub mod PinentryManager
pub mod PolkitListener
pub mod IpcServer
pub mod FallbackClient
pub mod Prompt
pub mod FallbackWindow
pub mod PinentryMode
pub mod Handlers
pub mod Daemon
pub mod Examples
