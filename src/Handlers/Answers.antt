-- ===== src/Handlers/Answers.antt =====
-- handleRespond and handleCancel of core/Agent.cpp: the answers of the user interface.
use noctalia_unofficial_auth.Base.{
  String, true, not, ◌||◌, Option, none, some, ◌==◌, if◌then◌else◌, comparable_nat,
  comparable_string,
}
use noctalia_unofficial_auth.Json.{JsonObject, value, to_string}
use noctalia_unofficial_auth.Session.{Session, is_polkit}
use noctalia_unofficial_auth.EventQueue.{Socket, nullptr}
use noctalia_unofficial_auth.Environment.{Env}
use noctalia_unofficial_auth.ProviderRegistry
use noctalia_unofficial_auth.ProviderRegistry.{UiProvider, ProviderRegistry}
use noctalia_unofficial_auth.Agent
use noctalia_unofficial_auth.Agent.{Agent, send, send_json}
use noctalia_unofficial_auth.KeyringManager
use noctalia_unofficial_auth.KeyringManager.{error_reply}
use noctalia_unofficial_auth.PinentryManager
use noctalia_unofficial_auth.PinentryManager.{ok_reply}
use noctalia_unofficial_auth.PolkitListener.{submit_password, cancel_pending}

module _ (env : Env) where
  -- The branches of handleRespond and handleCancel behind the test of the provider.
  unfoldable pub respond_keyring : Socket → String → String → Agent → Agent
  respond_keyring s cookie response a =
      let orig = KeyringManager.get_socket_for_request cookie a in
      let (reply, b) = KeyringManager.handle_response env cookie response a in
      send env s ok_reply (if orig == nullptr then b else send_json env orig reply true b)

  abbrev pub or_invalid : String → String
  or_invalid message = if message == "" then "Invalid pinentry session state" else message

  unfoldable pub respond_pinentry : Socket → String → String → Agent → Agent
  respond_pinentry s cookie response a =
      let orig = PinentryManager.get_socket_for_pending_input cookie a in
      let (reply, b) = PinentryManager.handle_response env cookie response a in
      if orig == nullptr || to_string (value "type" reply) == "error"
      then send env s (error_reply (or_invalid (to_string (value "message" reply)))) b
      else send env s ok_reply (send_json env orig reply true b)

  unfoldable pub respond_session : Socket → String → String → Option Session → Agent → Agent
  respond_session s cookie response none a = send env s (error_reply "Unknown session") a
  respond_session s cookie response (some session) a =
      if not (is_polkit session.source)
      then send env s (error_reply "Session is not awaiting direct response") a
      else send env s ok_reply (submit_password cookie response a)

  unfoldable pub handle_respond : Socket → JsonObject → Agent → Agent
  unfolding respond_keyring respond_pinentry respond_session
  handle_respond s msg a =
      let cookie = to_string (value "id" msg) in
      let response = to_string (value "response" msg) in
      if not (ProviderRegistry.is_authorized s a.registry)
      then send env s (error_reply "Not active UI provider") a
      else if KeyringManager.has_pending_request cookie a
      then respond_keyring s cookie response a
      else if PinentryManager.has_pending_input cookie a
      then respond_pinentry s cookie response a
      else if PinentryManager.has_request cookie a
      then send env s (error_reply "Session is not accepting input") a
      else respond_session s cookie response (Agent.get_session cookie a) a

  unfoldable pub cancel_keyring : Socket → String → Agent → Agent
  cancel_keyring s cookie a =
      let orig = KeyringManager.get_socket_for_request cookie a in
      let (reply, b) = KeyringManager.handle_cancel env cookie a in
      send env s ok_reply (if orig == nullptr then b else send env orig reply b)

  unfoldable pub cancel_pinentry : Socket → String → Agent → Agent
  cancel_pinentry s cookie a =
      let orig = PinentryManager.get_socket_for_pending_input cookie a in
      let (reply, b) = PinentryManager.handle_cancel env cookie a in
      if to_string (value "type" reply) == "error"
      then send env s reply b
      else send env s ok_reply (if orig == nullptr then b else send env orig reply b)

  unfoldable pub cancel_session : Socket → String → Option Session → Agent → Agent
  cancel_session s cookie none a = send env s (error_reply "Unknown session") a
  cancel_session s cookie (some session) a =
      if not (is_polkit session.source)
      then send env s (error_reply "Session is not cancellable from this path") a
      else send env s ok_reply (cancel_pending env cookie a)

  unfoldable pub handle_cancel : Socket → JsonObject → Agent → Agent
  unfolding cancel_keyring cancel_pinentry cancel_session
  handle_cancel s msg a =
      let cookie = to_string (value "id" msg) in
      if not (ProviderRegistry.is_authorized s a.registry)
      then send env s (error_reply "Not active UI provider") a
      else if KeyringManager.has_pending_request cookie a
      then cancel_keyring s cookie a
      else if PinentryManager.has_request cookie a
      then cancel_pinentry s cookie a
      else cancel_session s cookie (Agent.get_session cookie a) a
