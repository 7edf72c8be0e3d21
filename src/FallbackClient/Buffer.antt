-- ===== src/FallbackClient/Buffer.antt =====
-- The bytes that the client keeps.
use noctalia_unofficial_auth.Base.{
  ◌+◌, true, false, Option, [], ◌∷◌, ◌++◌, ◌≡◌, refl, ap, ◌∙◌, arith, if-test, comparable_nat,
}
use noctalia_unofficial_auth.Base.Lists.{length, contains}
use noctalia_unofficial_auth.Text.{Text, newline}
use noctalia_unofficial_auth.LineLoop.Lines.{complete_lines, unfinished, take_all, process_lines-eq}
use noctalia_unofficial_auth.Json.{JsonObject}
use noctalia_unofficial_auth.FallbackClient
use noctalia_unofficial_auth.FallbackClient.{
  FallbackClient, unconnected, forget, emit, status_message, connection_state_changed, on_connected,
  on_disconnected, start_reconnect, send_json, subscription, registration, register_provider,
  set_provider_active,
}
use noctalia_unofficial_auth.FallbackClient.Messages.{
  take_line, on_ready_read, connected, disconnected, ready_read, step,
}
use noctalia_unofficial_auth.FallbackClient.Connection.{
  Link, HasLink, send_json-HasLink, set_provider_active-HasLink,
}

module _ (from_json : Text → Option JsonObject) where
  -- The client after it takes the complete lines of a text and keeps the rest.
  abbrev pub taken : Text → FallbackClient → FallbackClient
  taken text c = record (take_all (take_line from_json) (complete_lines text) c) {
    buffer = unfinished text;
  }

  -- Reading a chunk takes the complete lines of what is kept and read, and keeps the rest.
  pub on_ready_read-lines :
      (chunk : Text) (c : FallbackClient)
      → on_ready_read from_json chunk c ≡ taken (c.buffer ++ chunk) c
  unfolding on_ready_read
  on_ready_read-lines chunk c =
      let text = c.buffer ++ chunk in
      rw (process_lines-eq (take_line from_json) (length text + 1) text c (omega arith)) refl

  module _ (c : FallbackClient) where
    on_disconnected-buffer : (on_disconnected c).buffer ≡ c.buffer
    unfolding on_disconnected start_reconnect HasLink
    on_disconnected-buffer =
        let d = forget (record c { socket = unconnected }) in
        let told =
          emit (status_message "Disconnected from auth daemon, reconnecting...")
            (emit (connection_state_changed false) (set_provider_active false d)) in
        if-test (λ (e : FallbackClient). e.buffer ≡ c.buffer) told.reconnect_timer told _
          (λ e. ap (λ (l : Link). l.3) (set_provider_active-HasLink false d))
          (λ e. ap (λ (l : Link). l.3) (set_provider_active-HasLink false d))

    on_connected-buffer : (on_connected c).buffer ≡ c.buffer
    unfolding on_connected HasLink
    on_connected-buffer =
        let d = forget (record c { socket = FallbackClient.connected; reconnect_delay_ms = 200 }) in
        let told =
          emit (status_message "Connected to auth daemon")
            (emit (connection_state_changed true) (set_provider_active false d)) in
        ap (λ (l : Link). l.3)
          (send_json-HasLink subscription (register_provider told)
            ∙ send_json-HasLink registration told
            ∙ set_provider_active-HasLink false d)

  complete_lines-one :
      (kept line : Text)
      → contains newline kept ≡ false
      → contains newline line ≡ false
      → (complete_lines (kept ++ (line ++ newline ∷ [])) ≡ (kept ++ line) ∷ [])
        × (unfinished (kept ++ (line ++ newline ∷ [])) ≡ [])
  unfolding complete_lines unfinished contains
  complete_lines-one [] [] h k = (refl, refl)
  complete_lines-one [] (c ∷ line) h k =
      let rest = complete_lines-one [] line h (ground arith) in
      (ground (arith, rest.0, k), ground (arith, rest.0, rest.1, k))
  complete_lines-one (c ∷ kept) line h k =
      let rest = complete_lines-one kept line (ground arith) k in
      (ground (arith, rest.0, h), ground (arith, rest.0, rest.1, h))

  taken-one :
      (kept line : Text) (c : FallbackClient)
      → contains newline kept ≡ false
      → contains newline line ≡ false
      → taken (kept ++ (line ++ newline ∷ [])) c
        ≡ record (take_line from_json (kept ++ line) c) { buffer = [] }
  unfolding take_all
  taken-one kept line c h k =
      let parts = complete_lines-one kept line h k in rw (parts.0, parts.1) refl

  -- What a connection leaves of an unfinished line stands before the first line of the next
  -- connection: the client takes the two as one line.
  pub stale_buffer :
      (c : FallbackClient) (line : Text)
      → contains newline c.buffer ≡ false
      → contains newline line ≡ false
      → let again = step from_json connected (step from_json disconnected c) in
        step from_json (ready_read (line ++ newline ∷ [])) again
        ≡ record (take_line from_json (c.buffer ++ line) again) { buffer = [] }
  unfolding step take_all
  stale_buffer c line h k =
      let again = on_connected (on_disconnected c) in
      let same : again.buffer ≡ c.buffer =
        on_connected-buffer (on_disconnected c) ∙ on_disconnected-buffer c in
      on_ready_read-lines (line ++ newline ∷ []) again
      ∙ ap (λ kept. taken (kept ++ (line ++ newline ∷ [])) again) same
      ∙ taken-one c.buffer line again h k
