-- ===== src/Environment.antt =====
-- What the daemon asks of its surroundings while it handles one event: the clock, the sockets, the
-- generator of identifiers, the processes and the text functions of Qt. A value
-- of this type is an argument of every handler. The files that the daemon reads, those of /proc, of
-- the desktop entries and of the bootstrap, stand here by what reading them gives.
use noctalia_unofficial_auth.Base.{ℕ, String, Bool, Option, List}
use noctalia_unofficial_auth.Base.Int.{ℤ}
use noctalia_unofficial_auth.EventQueue.{Socket}
use noctalia_unofficial_auth.Json.{JsonObject}

-- core/RequestContext.hpp: what /proc tells of a process.
pub record ProcInfo : Type 0 where
  pub pid : ℤ
  pub ppid : ℤ
  pub uid : ℤ
  pub name : String
  pub exe : String
  pub cmdline : String

-- One entry of the index of desktop files.
pub record DesktopInfo : Type 0 where
  pub desktop_id : String
  pub name : String
  pub icon_name : String
  pub exec : String
  pub try_exec : String

pub record Env : Type 0 where
  -- QDateTime::currentMSecsSinceEpoch, one reading for the whole event.
  pub now_ms : ℕ
  -- state() == ConnectedState, and isValid(), of a socket that is no null pointer.
  pub connected : Socket → Bool
  pub valid : Socket → Bool
  -- getsockopt(SO_PEERCRED); `none` is its failure.
  pub peer_cred : Socket → Option ℤ
  -- QUuid::createUuid() for the socket's request.
  pub uuid : String
  -- getuid(), /proc and the desktop index.
  pub uid : ℤ
  pub read_proc : ℤ → Option ProcInfo
  pub desktop_index : List DesktopInfo
  -- QString and QFileInfo.
  pub to_lower : String → String
  pub first_upper : String → String
  pub file_name : String → String
  pub base_name : String → String
  pub append : String → String → String
  -- compare(…, Qt::CaseInsensitive) == 0, contains(…, Qt::CaseInsensitive)
  pub same_folded : String → String → Bool
  pub contains_folded : String → String → Bool
  pub to_long_long : String → Option ℤ
  -- The numbers that the pattern "(n of m attempts)" captures, by toInt.
  pub match_attempts : String → Option (ℤ × ℤ)
  -- Whether PolkitQt1::Agent::Session::cancel emits `completed` before it returns.
  pub cancel_completes : Bool
  -- The state file of the bootstrap, as readBootstrapState returns it.
  pub bootstrap : JsonObject
  -- pgrep finds the fallback window; BB_AUTH_FALLBACK_PATH; applicationDirPath.
  pub fallback_running : Bool
  pub fallback_path : String
  pub application_dir : String
  pub executable : String → Bool
  pub start_detached : String → Bool
