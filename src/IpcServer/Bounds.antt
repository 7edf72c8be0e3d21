-- ===== src/IpcServer/Bounds.antt =====
-- The size of what the server keeps of each socket.
use noctalia_unofficial_auth.Base.{
  ◌≤◌, ◌≡◌, refl, ◌⊎◌, inl, inr, true, some, List, [], ◌∷◌, ◌==◌, ==-refl, ltb, Bool-cases,
  comparable_nat, arith,
}
use noctalia_unofficial_auth.Base.Lists.{length, contains, contains-remove_all}
use noctalia_unofficial_auth.Base.Table.{lookup, insert, lookup-insert, lookup-remove}
use noctalia_unofficial_auth.EventQueue.{Socket}
use noctalia_unofficial_auth.IpcServer.{
  Bytes, max_message_size, Owner, Server, Signal, new_connection, ready_read, disconnected, stopped,
  process_buffer, on_new_connection, on_ready_read, on_disconnected, stop, on_signal, serve,
}
use noctalia_unofficial_auth.LineLoop.Lines.{
  complete_lines, unfinished, unfinished-le, complete_lines-unfinished,
}
use noctalia_unofficial_auth.IpcServer.Frames.{process_buffer-received, process_buffer_oversize}

-- A buffer with no complete line, within the limit.
abbrev pub IsPartial : Bytes → Type 0
IsPartial b = (complete_lines b ≡ []) × (length b ≤ max_message_size)

module _ {ℓ} {S : Type ℓ} where
  -- Each socket's buffer is partial, or the socket has been told to leave.
  abbrev pub IsBounded : Server S → Type 0
  IsBounded server =
      (s : Socket) (b : Bytes)
      → lookup s server.buffers ≡ some b
      → IsPartial b ⊎ (contains s server.leaving ≡ true)

  stop-IsBounded : (server : Server S) → IsBounded server → IsBounded (stop server)
  unfolding stop lookup
  stop-IsBounded server h = elim (Bool-cases server.listening) [
    | inl on ↦ rw on λ t b e. absurd (ground arith)
    | inr off ↦ rw off h
  ]

  module _ (owner : Owner S) where
    -- A buffer that is replaced, and its socket marked as it must be.
    insert-IsBounded :
        (s : Socket) (text : Bytes) (server : Server S) (gone : List Socket) (t : Socket)
        (b : Bytes)
        → IsBounded server
        → ((u : Socket) → contains u server.leaving ≡ true → contains u gone ≡ true)
        → IsPartial text ⊎ (contains s gone ≡ true)
        → lookup t (insert s text server.buffers) ≡ some b
        → IsPartial b ⊎ (contains t gone ≡ true)
    insert-IsBounded s text server gone t b h grows new e = elim (Bool-cases (s == t)) [
      | inl same ↦
          ground (arith, lookup-insert s t text server.buffers, new, comparable_nat.same_iff s t)
      | inr other ↦ elim (h t b (ground (arith, lookup-insert s t text server.buffers))) [
        | inl p ↦ inl p
        | inr l ↦ inr (grows t l)
      ]
    ]

    process_buffer-IsBounded :
        (s : Socket) (text : Bytes) (server : Server S)
        → IsBounded server
        → IsBounded (process_buffer owner s text server)
    unfolding contains
    process_buffer-IsBounded s text server h =
        elim (Bool-cases (ltb max_message_size (length text))) [
          | inl over ↦ rw (process_buffer_oversize owner s text server (ground arith)) λ t b.
              insert-IsBounded s text server (s ∷ server.leaving) t b h (λ u k. ground arith)
                (inr (ground (arith, ==-refl s)))
          | inr fits ↦ rw (process_buffer-received owner s text server (ground arith)) λ t b.
              insert-IsBounded s (unfinished text) server server.leaving t b h (λ u k. k)
                (inl (complete_lines-unfinished text, ground (arith, unfinished-le text)))
        ]

    on_disconnected-IsBounded :
        (s : Socket) (server : Server S)
        → IsBounded server
        → IsBounded (on_disconnected owner s server)
    unfolding on_disconnected
    on_disconnected-IsBounded s server h t b e = elim (Bool-cases (s == t)) [
      | inl same ↦ absurd (ground (arith, lookup-remove s t server.buffers))
      | inr other ↦
          ground
            (arith, h t b, lookup-remove s t server.buffers, contains-remove_all s t server.leaving)
    ]

    pub on_signal-IsBounded :
        (signal : Signal) (server : Server S)
        → IsBounded server
        → IsBounded (on_signal owner signal server)
    unfolding on_signal on_new_connection on_ready_read stop complete_lines
    on_signal-IsBounded (new_connection s) server h = λ t b.
        insert-IsBounded s [] server server.leaving t b h (λ u k. k) (inl (refl, omega arith))
    on_signal-IsBounded (ready_read s chunk) server h = process_buffer-IsBounded s _ server h
    on_signal-IsBounded (disconnected s) server h = on_disconnected-IsBounded s server h
    on_signal-IsBounded stopped server h = stop-IsBounded server h

    -- Whatever the clients send and whenever they come and go, what the server keeps of a socket's
    -- bytes holds no complete line and is at most 65536 bytes long, or the server has told that
    -- socket to disconnect.
    pub serve-IsBounded :
        (signals : List Signal) (server : Server S)
        → IsBounded server
        → IsBounded (serve owner signals server)
    unfolding serve
    serve-IsBounded [] server h = h
    serve-IsBounded (signal ∷ signals) server h =
        serve-IsBounded signals (on_signal owner signal server)
          (on_signal-IsBounded signal server h)
