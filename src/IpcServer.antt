-- ===== src/IpcServer.antt =====
-- core/ipc/IpcServer.cpp: connections, the bytes that they deliver, and the lines that these form.
-- QByteArray is a list of bytes. The parser of JSON and the owner of the server are a parameter.
pub mod Frames
pub mod Bounds
pub mod Keeps
use noctalia_unofficial_auth.Base.{
  ℕ, zero, suc, ◌+◌, String, Bool, true, false, ◌&&◌, ◌||◌, Option, none, some, List, [], ◌∷◌, ◌++◌,
  ◌==◌, if◌then◌else◌, leb, ltb, comparable_nat, comparable_string,
}
use noctalia_unofficial_auth.Base.Lists.{length, drop, remove_all}
use noctalia_unofficial_auth.Base.Table.{Table, lookup, insert, remove}
use noctalia_unofficial_auth.Text.{is_empty, trimmed}
use noctalia_unofficial_auth.LineLoop.{process_lines}
use noctalia_unofficial_auth.Json.{JsonObject, object, str, value, to_string}
use noctalia_unofficial_auth.EventQueue.{Socket}

abbrev pub Bytes : Type 0
Bytes = List ℕ

-- MAX_MESSAGE_SIZE
abbrev pub max_message_size : ℕ
max_message_size = 65536

-- isspace in the locale "C"
abbrev pub is_space : ℕ → Bool
is_space c = c == 32 || leb 9 c && leb c 13

abbrev pub error_message : String → JsonObject
error_message text = object (("type", str "error") ∷ ("message", str text) ∷ [])

-- What the server calls: QJsonDocument::fromJson, which gives `none` for an error and for what is no
-- object, sendJson, the handler that is set, and the slots of its two signals.
pub record Owner {ℓ} (S : Type ℓ) : Type ℓ where
  pub from_json : Bytes → Option JsonObject
  pub send_json : Socket → JsonObject → S → S
  pub handler : Option (Socket → String → JsonObject → S → S)
  pub client_connected : Socket → S → S
  pub client_disconnected : Socket → S → S

-- Whether it listens, the buffers, the sockets that the server has told to disconnect, and the owner's state.
pub record Server {ℓ} (S : Type ℓ) : Type ℓ where
  pub listening : Bool
  pub buffers : Table Socket Bytes
  pub leaving : List Socket
  pub state : S

abbrev pub or_empty : Option Bytes → Bytes
or_empty none = []
or_empty (some buffer) = buffer

-- m_buffers[socket], which is empty for a socket that has none.
abbrev pub buffer_of {ℓ} : {S : Type ℓ} → Socket → Server S → Bytes
buffer_of s server = or_empty (lookup s server.buffers)

abbrev keys {ℓ} : {V : Type ℓ} → Table Socket V → List Socket
keys [] = []
keys ((s, v) ∷ rest) = s ∷ keys rest

module _ {ℓ} {S : Type ℓ} where
  -- `listens` is what listen() answers, after a file at the path is removed.
  unfoldable pub start : Bool → Server S → Bool × Server S
  start listens server =
      if server.listening then (false, server) else (listens, record server { listening = listens })

  unfoldable pub stop : Server S → Server S
  stop server =
      if server.listening
      then record server {
        listening = false;
        buffers = [];
        leaving = keys server.buffers ++ server.leaving;
      }
      else server

module _ {ℓ} {S : Type ℓ} (owner : Owner S) where
  unfoldable pub handle_object : Socket → JsonObject → S → S
  handle_object s msg a =
      let type = to_string (value "type" msg) in
      if type == ""
      then owner.send_json s (error_message "Missing type field") a
      else elim owner.handler [ none ↦ a | some handler ↦ handler s type msg a ]

  unfoldable pub handle_line : Socket → Bytes → S → S
  unfolding handle_object
  handle_line s line a = elim owner.handler [
    | none ↦ a
    | some handler ↦ elim (owner.from_json line) [
      | none ↦ owner.send_json s (error_message "Invalid JSON") a
      | some msg ↦ handle_object s msg a
    ]
  ]

  -- The body of the loop, on the line before a newline.
  unfoldable pub take_line : Socket → Bytes → S → S
  unfolding handle_line
  take_line s raw a =
      let line = trimmed is_space raw in if is_empty line then a else handle_line s line a

  unfoldable pub on_new_connection : Socket → Server S → Server S
  on_new_connection s server = record server {
    buffers = insert s [] server.buffers;
    state = owner.client_connected s server.state;
  }

  -- onReadyRead once the chunk is appended.
  unfoldable pub process_buffer : Socket → Bytes → Server S → Server S
  unfolding process_lines take_line
  process_buffer s buffer server =
      let (rest, a) = process_lines (take_line s) (length buffer + 1) buffer server.state in
      if ltb max_message_size (length buffer)
      then record server { buffers = insert s buffer server.buffers; leaving = s ∷ server.leaving }
      else record server { buffers = insert s rest server.buffers; state = a }

  unfoldable pub on_ready_read : Socket → Bytes → Server S → Server S
  unfolding process_buffer
  on_ready_read s chunk server = process_buffer s (buffer_of s server ++ chunk) server

  unfoldable pub on_disconnected : Socket → Server S → Server S
  on_disconnected s server = record server {
    buffers = remove s server.buffers;
    leaving = remove_all s server.leaving;
    state = owner.client_disconnected s server.state;
  }

  -- The chunks that a socket delivers, one after another.
  unfoldable pub deliver : Socket → List Bytes → Server S → Server S
  unfolding on_ready_read
  deliver s [] server = server
  deliver s (chunk ∷ chunks) server = deliver s chunks (on_ready_read s chunk server)

-- What the event loop tells the server.
pub data Signal : Type 0 where
  new_connection : Socket → Signal
  ready_read : Socket → Bytes → Signal
  disconnected : Socket → Signal
  stopped : Signal

module _ {ℓ} {S : Type ℓ} (owner : Owner S) where
  unfoldable pub on_signal : Signal → Server S → Server S
  unfolding on_new_connection on_ready_read on_disconnected stop
  on_signal (new_connection s) server = on_new_connection owner s server
  on_signal (ready_read s chunk) server = on_ready_read owner s chunk server
  on_signal (disconnected s) server = on_disconnected owner s server
  on_signal stopped server = stop server

  unfoldable pub serve : List Signal → Server S → Server S
  unfolding on_signal
  serve [] server = server
  serve (signal ∷ signals) server = serve signals (on_signal signal server)
