-- ===== src/LineLoop.antt =====
-- The loop over the complete lines of a buffer, which core/ipc/IpcServer.cpp and
-- fallback/FallbackClient.cpp share but for its body.
pub mod Lines
use noctalia_unofficial_auth.Base.{ℕ, zero, suc, none, some, ◌∷◌}
use noctalia_unofficial_auth.Base.Lists.{drop}
use noctalia_unofficial_auth.Text.{Text, newline, index_of, left}

-- `body` gets each line without its newline; the buffer that the loop leaves is returned.
unfoldable pub process_lines {ℓ} : {S : Type ℓ} → (Text → S → S) → ℕ → Text → S → Text × S
unfolding index_of left
process_lines body zero buffer a = (buffer, a)
process_lines body (suc fuel) buffer a = elim (index_of newline buffer) [
  | none ↦ (buffer, a)
  | some idx ↦ process_lines body fuel (drop (suc idx) buffer) (body (left idx buffer) a)
]
