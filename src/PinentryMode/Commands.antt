-- ===== src/PinentryMode/Commands.antt =====
-- handleCommand and run of modes/pinentry.cpp.
use noctalia_unofficial_auth.Base.{
  ℕ, zero, suc, String, Bool, true, false, ◌&&◌, Option, none, some, List, [], ◌∷◌, ◌==◌,
  if◌then◌else◌, comparable_nat, comparable_string,
}
use noctalia_unofficial_auth.Base.Lists.{drop}
use noctalia_unofficial_auth.Text.{Text, index_of, left, is_empty}
use noctalia_unofficial_auth.PinentryMode.Codec.{assuan_decode}
use noctalia_unofficial_auth.PinentryMode.{
  World, PinentryState, new_state, PinentrySession, new_session, send_ok, send_data,
  finalize_on_stream_close, handle_get_pin, handle_confirm, handle_message,
}

-- The commands SET….
unfoldable pub set_field : String → String → PinentryState → Option PinentryState
set_field cmd arg state =
    if cmd == "SETDESC"
    then some (record state { description = arg })
    else if cmd == "SETPROMPT"
    then some (record state { prompt = arg })
    else if cmd == "SETTITLE"
    then some (record state { title = arg })
    else if cmd == "SETERROR"
    then some (record state { error = arg })
    else if cmd == "SETOK"
    then some (record state { ok_text = arg })
    else if cmd == "SETCANCEL"
    then some (record state { cancel_text = arg })
    else if cmd == "SETNOTOK"
    then some (record state { not_ok_text = arg })
    else if cmd == "SETKEYINFO"
    then some (record state { keyinfo = arg })
    else if cmd == "SETREPEAT"
    then some (record state { repeat = arg })
    else none

-- A line without the carriage return at its end.
unfoldable pub strip_return : List ℕ → List ℕ
strip_return [] = []
strip_return (c ∷ cs) =
    let rest = strip_return cs in if is_empty cs && c == 13 then [] else c ∷ rest

module _ (w : World) where
  -- What GETINFO tells, if anything.
  unfoldable pub info : String → Option String
  info arg =
      if arg == "pid"
      then some w.pid
      else if arg == "version"
      then some "1.0.0"
      else if arg == "flavor"
      then some "bb"
      else if arg == "ttyinfo"
      then some ""
      else none

  unfoldable pub send_info : Option String → PinentrySession → PinentrySession
  send_info none s = send_ok "" s
  send_info (some text) s = send_ok "" (send_data w text s)

  unfoldable pub get_info : String → PinentrySession → PinentrySession
  unfolding info send_info
  get_info arg s = send_info (info arg) s

  -- The commands behind SET….
  unfoldable pub handle_other : String → String → PinentrySession → PinentrySession
  unfolding get_info handle_get_pin handle_confirm handle_message
  handle_other cmd arg s =
      if cmd == "OPTION"
      then send_ok "" s
      else if cmd == "GETINFO"
      then get_info arg s
      else if cmd == "GETPIN"
      then handle_get_pin w s
      else if cmd == "CONFIRM"
      then handle_confirm w s
      else if cmd == "MESSAGE"
      then handle_message w s
      else if cmd == "RESET"
      then send_ok "" (record s { state = new_state })
      else send_ok "" s

  -- A command that may be one of SET….
  unfoldable pub handle_set :
      Option PinentryState → String → String → PinentrySession → PinentrySession
  unfolding handle_other
  handle_set none cmd arg s = handle_other cmd arg s
  handle_set (some state) cmd arg s = send_ok "" (record s { state = state })

  -- `false` ends the session.
  unfoldable pub dispatch : String → String → PinentrySession → Bool × PinentrySession
  unfolding set_field handle_set finalize_on_stream_close
  dispatch cmd arg s =
      if cmd == "BYE"
      then (false, send_ok "closing connection" (finalize_on_stream_close w s))
      else (true, handle_set (set_field cmd arg s.state) cmd arg s)

  abbrev pub command_of : Text → String
  command_of text = w.to_upper (w.string text)

  -- What follows the first space, which is not the first unit.
  unfoldable pub split_command : Text → Option ℕ → String × String
  split_command line none = (command_of line, "")
  split_command line (some zero) = (command_of line, "")
  split_command line (some (suc i)) =
      (command_of (left (suc i) line), w.string (assuan_decode w.codes (drop (suc (suc i)) line)))

  unfoldable pub handle_command : Text → PinentrySession → Bool × PinentrySession
  unfolding split_command dispatch
  handle_command line s =
      let (cmd, arg) = split_command line (index_of 32 line) in dispatch cmd arg s

  -- The loop over the lines that are read.
  unfoldable pub read_lines : List (List ℕ) → PinentrySession → PinentrySession
  unfolding handle_command strip_return
  read_lines [] s = s
  read_lines (line ∷ lines) s =
      if is_empty line
      then read_lines lines s
      else let (continues, t) = handle_command (w.from_std (strip_return line)) s in
        let rest = read_lines lines t in if continues then rest else t

  unfoldable pub run : List (List ℕ) → PinentrySession
  unfolding read_lines finalize_on_stream_close
  run lines = finalize_on_stream_close w (read_lines lines (send_ok "BB Auth Pinentry" new_session))
