-- ===== src/IpcServer/Frames.antt =====
-- What a socket's bytes do, and the division of the bytes into chunks.
use noctalia_unofficial_auth.Base.{
  ◌≢◌, ◌+◌, ◌≤◌, ◌<◌, ◌≡◌, refl, sym, ap, ◌∙◌, true, false, some, List, [], ◌∷◌, ◌++◌, ltb,
  comparable_nat, arith, append_assoc, append-nil,
}
use noctalia_unofficial_auth.Base.Lists.{length, length-append, contains, All}
use noctalia_unofficial_auth.Base.Table.{lookup, insert, table_laws, insert-insert, insert-same}
use noctalia_unofficial_auth.EventQueue.{Socket}
use noctalia_unofficial_auth.Text.{newline, trimmed}
use noctalia_unofficial_auth.IpcServer.{
  Bytes, max_message_size, handle_line, Owner, Server, or_empty, take_line, process_buffer,
  on_ready_read, deliver, is_space,
}
use noctalia_unofficial_auth.LineLoop.Lines.{
  complete_lines, unfinished, take_all, process_lines-eq, complete_lines-append, unfinished-append,
  unfinished-le, unfinished-alone, complete_lines-unfinished,
}

-- The chunks as one.
abbrev pub together : List Bytes → Bytes
together [] = []
together (chunk ∷ chunks) = chunk ++ together chunks

complete_none : complete_lines [] ≡ []
unfolding complete_lines
complete_none = refl

module _ {ℓ} {S : Type ℓ} (owner : Owner S) (s : Socket) where
  take_all-append :
      (xs ys : List Bytes) (a : S)
      → take_all (take_line owner s) (xs ++ ys) a
        ≡ take_all (take_line owner s) ys (take_all (take_line owner s) xs a)
  unfolding take_all
  take_all-append [] ys a = refl
  take_all-append (x ∷ xs) ys a = take_all-append xs ys (take_line owner s x a)

  -- The server after a chunk that stays within the limit.
  abbrev pub received : Bytes → Server S → Server S
  received text server = record server {
    buffers = insert s (unfinished text) server.buffers;
    state = take_all (take_line owner s) (complete_lines text) server.state;
  }

  pub process_buffer-received :
      (text : Bytes) (server : Server S)
      → length text ≤ max_message_size
      → process_buffer owner s text server ≡ received text server
  unfolding process_buffer
  process_buffer-received text server h =
      let fits : ltb max_message_size (length text) ≡ false = ground arith in
      rw
        (
          fits,
          process_lines-eq (take_line owner s) (length text + 1) text server.state (omega arith),
        )
        refl

  -- A buffer beyond the limit: the socket is told to leave, no line is taken.
  pub process_buffer_oversize :
      (text : Bytes) (server : Server S)
      → max_message_size < length text
      → process_buffer owner s text server
        ≡ record server { buffers = insert s text server.buffers; leaving = s ∷ server.leaving }
  unfolding process_buffer
  process_buffer_oversize text server h =
      let over : ltb max_message_size (length text) ≡ true = ground arith in rw over refl

  on_ready_read-process_buffer :
      (chunk b : Bytes) (server : Server S)
      → lookup s server.buffers ≡ some b
      → on_ready_read owner s chunk server ≡ process_buffer owner s (b ++ chunk) server
  unfolding on_ready_read
  on_ready_read-process_buffer chunk b server e =
      ap (λ o. process_buffer owner s (or_empty o ++ chunk) server) e

  pub on_ready_read-received :
      (chunk b : Bytes) (server : Server S)
      → lookup s server.buffers ≡ some b
      → length (b ++ chunk) ≤ max_message_size
      → on_ready_read owner s chunk server ≡ received (b ++ chunk) server
  on_ready_read-received chunk b server e h =
      on_ready_read-process_buffer chunk b server e ∙ process_buffer-received (b ++ chunk) server h

  -- One text after another, when the first leaves its rest as the buffer.
  received-received :
      (text more : Bytes) (server : Server S)
      → received (unfinished text ++ more) (received text server) ≡ received (text ++ more) server
  received-received text more server =
      rw
        (
          insert-insert s (unfinished text) (unfinished (unfinished text ++ more)) server.buffers,
          unfinished-append text more,
          complete_lines-append text more,
          take_all-append (complete_lines text) (complete_lines (unfinished text ++ more))
              server.state,
        )
        refl

  buffer_of-received :
      (text : Bytes) (server : Server S)
      → lookup s (received text server).buffers ≡ some (unfinished text)
  buffer_of-received text server = simp table_laws

  -- However a text is cut into chunks, a server whose buffer of the socket holds no complete line
  -- does with the chunks what it does with the text: if the buffer and the text together stay within
  -- the limit, it takes their complete lines in their order, and keeps what follows the last newline.
  pub deliver-received :
      (chunks : List Bytes) (b : Bytes) (server : Server S)
      → lookup s server.buffers ≡ some b
      → complete_lines b ≡ []
      → length (b ++ together chunks) ≤ max_message_size
      → deliver owner s chunks server ≡ received (b ++ together chunks) server
  unfolding deliver take_all
  deliver-received [] b server e n h =
      rw (append-nil b, n, unfinished-alone b n, insert-same s b server.buffers e) refl
  deliver-received (chunk ∷ chunks) b server e n h =
      let text = b ++ chunk in
      let all : b ++ together (chunk ∷ chunks) ≡ text ++ together chunks =
        sym (append_assoc b chunk (together chunks)) in
      let size : length (text ++ together chunks) ≤ max_message_size = rw (← all) h in
      rw
        (
          all,
          on_ready_read-received chunk b server e
              (omega (arith, size, length-append text (together chunks))),
        )
        (deliver-received chunks (unfinished text) (received text server)
            (buffer_of-received text server) (complete_lines-unfinished text)
            (omega (
              arith,
              size,
              length-append text (together chunks),
              length-append (unfinished text) (together chunks),
              unfinished-le text,
            ))
          ∙ received-received text (together chunks) server)

  -- A text that a peer frames: each line with a newline behind it.
  abbrev pub frames : List Bytes → Bytes
  frames [] = []
  frames (line ∷ lines) = (line ++ newline ∷ []) ++ frames lines

  -- What a peer may frame: no newline inside, and no space at the ends, so that trimming keeps it.
  abbrev pub IsFrame : Bytes → Type 0
  IsFrame line = (contains newline line ≡ false) × (trimmed is_space line ≡ line) × (line ≢ [])

  complete_lines-line :
      (line rest : Bytes)
      → contains newline line ≡ false
      → (complete_lines ((line ++ newline ∷ []) ++ rest) ≡ line ∷ complete_lines rest)
        × (unfinished ((line ++ newline ∷ []) ++ rest) ≡ unfinished rest)
  unfolding complete_lines unfinished contains
  complete_lines-line [] rest h = (refl, refl)
  complete_lines-line (c ∷ line) rest h =
      let tail = complete_lines-line line rest (ground arith) in
      (ground (arith, tail.0, h), ground (arith, tail.0, tail.1, h))

  frames-lines :
      (lines : List Bytes)
      → All IsFrame lines
      → (complete_lines (frames lines) ≡ lines) × (unfinished (frames lines) ≡ [])
  unfolding complete_lines unfinished
  frames-lines [] h = (refl, refl)
  frames-lines (line ∷ lines) h =
      let first = complete_lines-line line (frames lines) h.0.0 in
      let rest = frames-lines lines h.1 in (rw (first.0, rest.0) refl, rw (first.1, rest.1) refl)

  -- Each line handled in its order.
  unfoldable pub handle_all : List Bytes → S → S
  handle_all [] a = a
  handle_all (line ∷ lines) a = handle_all lines (handle_line owner s line a)

  take_line-IsFrame :
      (line : Bytes) (a : S) → IsFrame line → take_line owner s line a ≡ handle_line owner s line a
  unfolding take_line
  take_line-IsFrame [] a h = absurd (h.2 refl)
  take_line-IsFrame (c ∷ line) a h = rw (take_line, h.1) refl

  take_all-IsFrame :
      (lines : List Bytes) (a : S)
      → All IsFrame lines
      → take_all (take_line owner s) lines a ≡ handle_all lines a
  unfolding take_all handle_all
  take_all-IsFrame [] a h = refl
  take_all-IsFrame (line ∷ lines) a h =
      rw (take_line-IsFrame line a h.0) (take_all-IsFrame lines (handle_line owner s line a) h.1)

  -- The lines that a peer frames, sent in any chunks to a socket with an empty buffer and within
  -- the limit, are each handled once, in their order, and the buffer is empty again.
  pub deliver-frames :
      (lines chunks : List Bytes) (server : Server S)
      → lookup s server.buffers ≡ some []
      → All IsFrame lines
      → together chunks ≡ frames lines
      → length (frames lines) ≤ max_message_size
      → deliver owner s chunks server ≡ record server { state = handle_all lines server.state }
  deliver-frames lines chunks server e f c h =
      let parts = frames-lines lines f in
      deliver-received chunks [] server e complete_none (rw c h)
      ∙ rw
          (
            c,
            parts.0,
            parts.1,
            insert-same s [] server.buffers e,
            take_all-IsFrame lines server.state f,
          )
          refl

  -- Two framed lines that are each within the limit, but not together: sent as two chunks, both are
  -- handled; sent as one chunk, neither is, and the socket is told to disconnect.
  pub limit_depends_on_chunks :
      (x y : Bytes) (server : Server S)
      → lookup s server.buffers ≡ some []
      → IsFrame x
      → IsFrame y
      → length (frames (x ∷ [])) ≤ max_message_size
      → length (frames (y ∷ [])) ≤ max_message_size
      → max_message_size < length (frames (x ∷ y ∷ []))
      → (deliver owner s (frames (x ∷ []) ∷ frames (y ∷ []) ∷ []) server
          ≡ record server { state = handle_line owner s y (handle_line owner s x server.state) })
        × (deliver owner s (frames (x ∷ y ∷ []) ∷ []) server ≡ record server {
          buffers = insert s (frames (x ∷ y ∷ [])) server.buffers;
          leaving = s ∷ server.leaving;
        })
  unfolding deliver handle_all
  limit_depends_on_chunks x y server e fx fy hx hy over =
      let at_x =
        deliver-frames (x ∷ []) (frames (x ∷ []) ∷ []) server e (fx, tt) (append-nil _) hx in
      let next = record server { state = handle_line owner s x server.state } in
      let at_y = deliver-frames (y ∷ []) (frames (y ∷ []) ∷ []) next e (fy, tt) (append-nil _) hy in
      (
        ap (on_ready_read owner s (frames (y ∷ []))) at_x ∙ at_y,
        on_ready_read-process_buffer (frames (x ∷ y ∷ [])) [] server e
            ∙ process_buffer_oversize (frames (x ∷ y ∷ [])) server over,
      )
