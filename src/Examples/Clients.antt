-- ===== src/Examples/Clients.antt =====
-- The theorems about the bytes of clients and about the pinentry, applied.
use noctalia_unofficial_auth.Base.{
  ℕ, zero, suc, ◌≤◌, ◌<◌, ◌&&◌, false, ◌≡◌, refl, Option, none, some, List, [], ◌∷◌, ◌++◌, ◌==◌,
  if◌then◌else◌, comparable_nat, comparable_string, arith,
}
use noctalia_unofficial_auth.Base.Lists.{length, length-append, contains}
use noctalia_unofficial_auth.Base.Table.{lookup, insert}
use noctalia_unofficial_auth.Json.{JsonObject}
use noctalia_unofficial_auth.Text.{newline, trim_start, trim_end, trimmed}
use noctalia_unofficial_auth.Environment.{Env}
use noctalia_unofficial_auth.Agent.{Agent}
use noctalia_unofficial_auth.Handlers.Safety.{Inv}
use noctalia_unofficial_auth.IpcServer.{
  Bytes, Owner, Server, is_space, max_message_size, new_connection, ready_read, disconnected,
  deliver, take_line, handle_line,
}
use noctalia_unofficial_auth.LineLoop.{process_lines}
use noctalia_unofficial_auth.LineLoop.Lines.{complete_lines, unfinished, take_all, process_lines-eq}
use noctalia_unofficial_auth.IpcServer.Frames.{
  frames, handle_all, IsFrame, deliver-frames, limit_depends_on_chunks,
}
use noctalia_unofficial_auth.IpcServer.Bounds.{IsBounded}
use noctalia_unofficial_auth.Daemon.{provider_maintenance}
use noctalia_unofficial_auth.Daemon.Wire.{
  WireEvent, of_server, of_daemon, owner, new_server, run_wire, run_wire-Inv,
}
use noctalia_unofficial_auth.Examples.{env_at, ask}
use noctalia_unofficial_auth.FallbackClient.{FallbackClient}
use noctalia_unofficial_auth.FallbackClient.Messages
use noctalia_unofficial_auth.FallbackClient.Messages.{new_client}
use noctalia_unofficial_auth.FallbackClient.Buffer.{stale_buffer}
use noctalia_unofficial_auth.FallbackClient.Retries.{IsLive, run-IsLive}

-- A parser that knows one text.
abbrev parse : Bytes → Option JsonObject
parse (x ∷ y ∷ []) = if x == 123 && y == 125 then some ask else none
parse _ = none

-- Socket 3 has connected.
abbrev connected : Server Agent
connected = record (new_server "/run/bb-auth.sock") { buffers = (3, []) ∷ [] }

abbrev daemon : Owner Agent
daemon = owner (env_at 1000) parse

three_empty : lookup 3 connected.buffers ≡ some []
unfolding lookup
three_empty = refl

none_complete : complete_lines [] ≡ []
unfolding complete_lines
none_complete = refl

braces-IsFrame : IsFrame daemon 3 (123 ∷ 125 ∷ [])
unfolding contains trimmed trim_start trim_end
braces-IsFrame = (refl, refl, λ e. absurd (ground (arith, e)))

deliver-frames_example :
    deliver daemon 3 ((123 ∷ []) ∷ (125 ∷ 10 ∷ []) ∷ []) connected
    ≡ record connected { state = handle_all daemon 3 ((123 ∷ 125 ∷ []) ∷ []) connected.state }
deliver-frames_example =
    deliver-frames daemon 3 ((123 ∷ 125 ∷ []) ∷ []) ((123 ∷ []) ∷ (125 ∷ 10 ∷ []) ∷ []) connected
      three_empty (braces-IsFrame, tt) refl (omega arith)

-- A line of n times the letter x.
unfoldable letters : ℕ → Bytes
letters zero = []
letters (suc n) = 120 ∷ letters n

length-letters : (n : ℕ) → length (letters n) ≡ n
unfolding letters
length-letters zero = refl
length-letters (suc n) = omega (arith, length-letters n)

trim_end-letters : (n : ℕ) → trim_end is_space (letters n) ≡ letters n
unfolding letters trim_end
trim_end-letters zero = refl
trim_end-letters (suc n) = ground (arith, trim_end-letters n)

contains-letters : (n : ℕ) → contains 10 (letters n) ≡ false
unfolding letters contains
contains-letters zero = refl
contains-letters (suc n) = contains-letters n

trimmed-letters : (n : ℕ) → trimmed is_space (letters (suc n)) ≡ letters (suc n)
unfolding letters trimmed trim_start trim_end
trimmed-letters n = trim_end-letters (suc n)

letters-IsFrame : (n : ℕ) → IsFrame daemon 3 (letters (suc n))
unfolding letters
letters-IsFrame n = (contains-letters (suc n), trimmed-letters n, λ e. absurd (ground (arith, e)))

abbrev long_line : Bytes
long_line = letters (suc 40000)

length-long_line : length long_line ≡ 40001
length-long_line = length-letters (suc 40000)

one_fits : length (frames daemon 3 (long_line ∷ [])) ≤ max_message_size
one_fits = omega (
  arith,
  length-long_line,
  length-append long_line (newline ∷ []),
  length-append (long_line ++ newline ∷ []) [],
)

two_exceed : max_message_size < length (frames daemon 3 (long_line ∷ long_line ∷ []))
two_exceed = omega (
  arith,
  length-long_line,
  length-append long_line (newline ∷ []),
  length-append (long_line ++ newline ∷ []) [],
  length-append (long_line ++ newline ∷ []) ((long_line ++ newline ∷ []) ++ []),
)

limit_depends_on_chunks_example :
    (deliver daemon 3
        (frames daemon 3 (long_line ∷ []) ∷ frames daemon 3 (long_line ∷ []) ∷ [])
        connected
      ≡ record connected {
        state = handle_line daemon 3 long_line (handle_line daemon 3 long_line connected.state);
      })
    × (deliver daemon 3 (frames daemon 3 (long_line ∷ long_line ∷ []) ∷ []) connected
        ≡ record connected {
          buffers = insert 3 (frames daemon 3 (long_line ∷ long_line ∷ [])) connected.buffers;
          leaving = 3 ∷ [];
        })
limit_depends_on_chunks_example =
    limit_depends_on_chunks daemon 3 long_line long_line connected three_empty
      (letters-IsFrame 40000) (letters-IsFrame 40000) one_fits one_fits two_exceed

abbrev traffic : List (Env × WireEvent)
traffic =
    (env_at 1000, of_server (new_connection 3))
    ∷ (env_at 2000, of_server (ready_read 3 (123 ∷ 125 ∷ 10 ∷ 1 ∷ [])))
    ∷ (env_at 3000, of_daemon provider_maintenance)
    ∷ (env_at 4000, of_server (disconnected 3))
    ∷ []

run_wire-Inv_example :
    Inv (run_wire parse traffic (new_server "/run/bb-auth.sock")).state
    × IsBounded (run_wire parse traffic (new_server "/run/bb-auth.sock"))
run_wire-Inv_example = run_wire-Inv parse "/run/bb-auth.sock" traffic

process_lines-eq_example :
    process_lines (take_line daemon 3) 5 (123 ∷ 125 ∷ 10 ∷ 1 ∷ []) connected.state ≡ (
      unfinished (123 ∷ 125 ∷ 10 ∷ 1 ∷ []),
      take_all (take_line daemon 3) (complete_lines (123 ∷ 125 ∷ 10 ∷ 1 ∷ [])) connected.state,
    )
process_lines-eq_example =
    process_lines-eq (take_line daemon 3) 5 (123 ∷ 125 ∷ 10 ∷ 1 ∷ []) connected.state (omega arith)

-- The client of the window, after half a line of an earlier connection.
abbrev half_line : FallbackClient
half_line = record new_client { buffer = 123 ∷ [] }

half_line_open : contains newline half_line.buffer ≡ false
unfolding contains
half_line_open = refl

brace_line : contains newline (123 ∷ 125 ∷ []) ≡ false
unfolding contains
brace_line = refl

stale_buffer_example :
    let again =
      Messages.step parse Messages.connected
        (Messages.step parse Messages.disconnected half_line) in
    Messages.step parse (Messages.ready_read (123 ∷ 125 ∷ newline ∷ [])) again
    ≡ record (Messages.take_line parse (123 ∷ 123 ∷ 125 ∷ []) again) { buffer = [] }
stale_buffer_example = stale_buffer parse half_line (123 ∷ 125 ∷ []) half_line_open brace_line

run-IsLive_example : IsLive (
    Messages.run parse
      (Messages.started ∷ Messages.connected ∷ Messages.disconnected ∷ Messages.reconnect_timer
        ∷ [])
      new_client)
run-IsLive_example =
    run-IsLive parse (Messages.connected ∷ Messages.disconnected ∷ Messages.reconnect_timer ∷ [])
