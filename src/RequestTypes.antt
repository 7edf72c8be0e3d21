-- ===== src/RequestTypes.antt =====
-- core/managers/RequestTypes.hpp, the private records of PinentryManager.hpp and PolkitListener.hpp.
use noctalia_unofficial_auth.Base.{ℕ, String, Bool, []}
use noctalia_unofficial_auth.Base.Int.{ℤ}
use noctalia_unofficial_auth.Base.Table.{Table}
use noctalia_unofficial_auth.EventQueue.{Socket}

pub record KeyringRequest : Type 0 where
  pub cookie : String
  pub socket : Socket
  pub peer_pid : ℤ
  pub title : String
  pub message : String
  pub choice : String
  pub flags : ℤ

pub record PinentryRequest : Type 0 where
  pub cookie : String
  pub socket : Socket
  pub peer_pid : ℤ
  pub prompt : String
  pub description : String
  pub error_text : String
  pub keyinfo : String
  pub repeat : Bool
  pub confirm_only : Bool

pub record PinentryRetryInfo : Type 0 where
  pub keyinfo : String
  pub cur_retry : ℤ
  pub max_retries : ℤ

-- The timer is the time at which it fires.
pub record AwaitingOutcome : Type 0 where
  pub request : PinentryRequest
  pub deadline_ms : ℕ

-- m_retryReported is a set: its keys.
pub record PinentryTables : Type 0 where
  pub pending_requests : Table String PinentryRequest
  pub awaiting_outcome : Table String AwaitingOutcome
  pub retry_info : Table String PinentryRetryInfo
  pub flow_owners : Table String ℤ
  pub flow_keyinfos : Table String String
  pub retry_reported : Table String (Unit {0})

abbrev pub no_flows : PinentryTables
no_flows = record {
  pending_requests = [];
  awaiting_outcome = [];
  retry_info = [];
  flow_owners = [];
  flow_keyinfos = [];
  retry_reported = [];
}

-- A PolkitQt1::Agent::Session by a number of its own; 0 is nullptr.
abbrev pub Handle : Type 0
Handle = ℕ

pub record SessionState : Type 0 where
  pub in_progress : Bool
  pub cancelled : Bool
  pub gained_auth : Bool
  pub cookie : String
  pub message : String
  pub icon_name : String
  pub action_id : String
  pub prompt : String
  pub error_text : String
  pub echo_on : Bool
  pub request_sent : Bool
  pub details : String → String
  pub selected_user : String
  pub session : Handle
  pub retry_count : ℕ

-- A SessionState is named by its cookie, which is its key in m_cookieToState. `next_handle` is the
-- number of the next session object.
pub record PolkitTables : Type 0 where
  pub cookie_to_state : Table String SessionState
  pub session_to_state : Table Handle String
  pub next_handle : Handle
