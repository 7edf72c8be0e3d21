-- ===== src/IpcServer/Keeps.antt =====
-- What the owner keeps of its state, kept by the server.
use noctalia_unofficial_auth.Base.{
  Option, none, some, List, [], ◌∷◌, ◌≡◌, refl, String, ◌==◌, comparable_string, Bool-cases, inl,
  inr, ltb,
}
use noctalia_unofficial_auth.Base.Lists.{length}
use noctalia_unofficial_auth.Json.{JsonObject, value, to_string}
use noctalia_unofficial_auth.EventQueue.{Socket}
use noctalia_unofficial_auth.Text.{is_empty, trimmed}
use noctalia_unofficial_auth.IpcServer.{
  Bytes, buffer_of, max_message_size, error_message, Owner, Server, Signal, new_connection,
  ready_read, disconnected, stopped, handle_object, handle_line, take_line, process_buffer,
  on_new_connection, on_ready_read, on_disconnected, stop, on_signal, is_space,
}
use noctalia_unofficial_auth.Base.{arith, ◌++◌}
use noctalia_unofficial_auth.LineLoop.Lines.{complete_lines, take_all}
use noctalia_unofficial_auth.IpcServer.Frames.{process_buffer-received, process_buffer_oversize}

abbrev HandlerKeeps {ℓ κ} :
    {S : Type ℓ} → (S → Type κ) → Option (Socket → String → JsonObject → S → S) → Type (ℓ ⊔ κ)
HandlerKeeps P none = Unit
HandlerKeeps {S = S} P (some handler) =
    (s : Socket) (type : String) (msg : JsonObject) (a : S) → P a → P (handler s type msg a)

-- The owner's operations keep `P`; of what it sends, only errors of the server are asked for.
pub record Keeps {ℓ κ} {S : Type ℓ} (P : S → Type κ) (owner : Owner S) : Type (ℓ ⊔ κ) where
  pub errors :
      (s : Socket) (text : String) (a : S) → P a → P (owner.send_json s (error_message text) a)
  pub handled : HandlerKeeps P owner.handler
  pub connects : (s : Socket) (a : S) → P a → P (owner.client_connected s a)
  pub disconnects : (s : Socket) (a : S) → P a → P (owner.client_disconnected s a)

module _ {ℓ κ} {S : Type ℓ} (P : S → Type κ) (owner : Owner S) (k : Keeps P owner)
    (s : Socket) where
  handle_object-keeps : (msg : JsonObject) (a : S) → P a → P (handle_object owner s msg a)
  unfolding handle_object
  handle_object-keeps msg a p = elim (Bool-cases (to_string (value "type" msg) == "")) [
    | inl e ↦ rw e (k.errors s _ a p)
    | inr e ↦ rw e (run owner.handler refl k.handled)
  ]
    where
      run :
          (h : Option (Socket → String → JsonObject → S → S))
          → owner.handler ≡ h
          → HandlerKeeps P h
          → P (elim h [ none ↦ a | some f ↦ f s (to_string (value "type" msg)) msg a ])
      run none e h = p
      run (some f) e h = h s _ msg a p

  handle_line-keeps : (line : Bytes) (a : S) → P a → P (handle_line owner s line a)
  unfolding handle_line
  handle_line-keeps line a p = run owner.handler (owner.from_json line)
    where
      run :
          (h : Option (Socket → String → JsonObject → S → S)) (o : Option JsonObject)
          → P (elim h [
            | none ↦ a
            | some f ↦ elim o [
              | none ↦ owner.send_json s (error_message "Invalid JSON") a
              | some msg ↦ handle_object owner s msg a
            ]
          ])
      run none o = p
      run (some f) none = k.errors s _ a p
      run (some f) (some msg) = handle_object-keeps msg a p

  take_line-keeps : (raw : Bytes) (a : S) → P a → P (take_line owner s raw a)
  unfolding take_line
  take_line-keeps raw a p = elim (Bool-cases (is_empty (trimmed is_space raw))) [
    | inl e ↦ rw e p
    | inr e ↦ rw e (handle_line-keeps (trimmed is_space raw) a p)
  ]

  take_all-keeps : (lines : List Bytes) (a : S) → P a → P (take_all (take_line owner s) lines a)
  unfolding take_all
  take_all-keeps [] a p = p
  take_all-keeps (line ∷ lines) a p =
      take_all-keeps lines (take_line owner s line a) (take_line-keeps line a p)

  process_buffer-keeps :
      (text : Bytes) (server : Server S)
      → P server.state
      → P (process_buffer owner s text server).state
  process_buffer-keeps text server p = elim (Bool-cases (ltb max_message_size (length text))) [
    | inl over ↦ rw (process_buffer_oversize owner s text server (ground arith)) p
    | inr fits ↦
        rw (process_buffer-received owner s text server (ground arith))
          (take_all-keeps (complete_lines text) server.state p)
  ]

stop-state {ℓ} : {S : Type ℓ} (server : Server S) → (stop server).state ≡ server.state
unfolding stop
stop-state server = elim (Bool-cases server.listening) [ inl e ↦ rw e refl | inr e ↦ rw e refl ]

-- What the owner keeps, the server keeps, whatever it is told.
pub on_signal-keeps {ℓ κ} :
    {S : Type ℓ} (P : S → Type κ) (owner : Owner S)
    → Keeps P owner
    → (signal : Signal) (server : Server S) → P server.state
    → P (on_signal owner signal server).state
unfolding on_signal on_new_connection on_ready_read on_disconnected
on_signal-keeps P owner k (new_connection s) server p = k.connects s server.state p
on_signal-keeps P owner k (ready_read s chunk) server p =
    process_buffer-keeps P owner k s (buffer_of s server ++ chunk) server p
on_signal-keeps P owner k (disconnected s) server p = k.disconnects s server.state p
on_signal-keeps P owner k stopped server p = rw (stop-state server) p
