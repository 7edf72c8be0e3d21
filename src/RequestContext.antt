-- ===== src/RequestContext.antt =====
-- core/RequestContext.hpp and RequestContext.cpp: which program asks, told from /proc and from the
-- desktop files. Reading /proc and indexing the desktop files are arguments (`Env`).
pub mod Names
pub mod Requestor
use noctalia_unofficial_auth.Base.{
  ℕ, zero, suc, String, Bool, true, false, not, ◌&&◌, ◌||◌, Option, none, some, List, [], ◌∷◌, ◌==◌,
  if◌then◌else◌, comparable_string,
}
use noctalia_unofficial_auth.Base.Int.{ℤ, pos, ltb_int, comparable_int}
use noctalia_unofficial_auth.Environment.{Env, ProcInfo, DesktopInfo}
use noctalia_unofficial_auth.Json.{JsonObject, num, str, obj, boolean, empty, object, set}
use noctalia_unofficial_auth.Session.{set_text}

pub record ActorInfo : Type 0 where
  pub proc : ProcInfo
  pub desktop : DesktopInfo
  pub display_name : String
  pub icon_name : String
  pub fallback_letter : String
  pub fallback_key : String
  pub confidence : String

abbrev pub no_desktop : DesktopInfo
no_desktop = record { desktop_id = ""; name = ""; icon_name = ""; exec = ""; try_exec = "" }

abbrev pub no_proc : ProcInfo
no_proc = record { pid = pos 0; ppid = pos 0; uid = pos 0; name = ""; exe = ""; cmdline = "" }

abbrev pub no_actor : ActorInfo
no_actor = record {
  proc = no_proc;
  desktop = no_desktop;
  display_name = "";
  icon_name = "";
  fallback_letter = "";
  fallback_key = "";
  confidence = "";
}

abbrev pub is_valid : DesktopInfo → Bool
is_valid d = not (d.desktop_id == "")

unfoldable pub proc_to_json : ProcInfo → JsonObject
proc_to_json p =
    let o1 = if ltb_int (pos 0) p.pid then set "pid" (num p.pid) empty else empty in
    let o2 = if ltb_int (pos 0) p.ppid then set "ppid" (num p.ppid) o1 else o1 in
    let o3 = if ltb_int p.uid (pos 0) then o2 else set "uid" (num p.uid) o2 in
    set_text "cmdline" p.cmdline (set_text "exe" p.exe (set_text "name" p.name o3))

-- The first entry that passes, or an invalid one.
unfoldable pub first_match : (DesktopInfo → Bool) → List DesktopInfo → Option DesktopInfo
first_match test [] = none
first_match test (d ∷ ds) = if test d then some d else first_match test ds

abbrev or_match : Option DesktopInfo → Option DesktopInfo → Option DesktopInfo
or_match none o = o
or_match (some d) o = some d

abbrev desktop_or_none : Option DesktopInfo → DesktopInfo
desktop_or_none none = no_desktop
desktop_or_none (some d) = d

module _ (env : Env) where
  unfoldable pub find_desktop_for_exe : String → DesktopInfo
  find_desktop_for_exe exe_path =
      let base = env.file_name exe_path in
      let file = env.append base ".desktop" in
      let try = λ (test : DesktopInfo → Bool). first_match test env.desktop_index in
      if exe_path == ""
      then no_desktop
      else desktop_or_none (
          or_match (try (λ d. d.desktop_id == file)) (
            or_match (try (λ d. env.same_folded d.desktop_id file)) (
              or_match (try (λ d. not (d.exec == "") && env.file_name d.exec == base)) (
                or_match (try (λ d. not (d.try_exec == "") && env.file_name d.try_exec == base))
                  (try (λ d. env.same_folded d.name base))))))

  abbrev pub is_bridge : ProcInfo → Bool
  is_bridge p = p.name == "pkexec" || p.name == "sudo" || p.name == "doas"

  unfoldable pub desktop_of : ProcInfo → DesktopInfo
  unfolding find_desktop_for_exe
  desktop_of p =
      let by_exe = if p.exe == "" then no_desktop else find_desktop_for_exe p.exe in
      if not (is_valid by_exe) && not (p.name == "") then find_desktop_for_exe p.name else by_exe

  -- The loop of resolveRequestorFromSubject; the first argument is 16 - hops.
  unfoldable pub walk : ℕ → ℤ → ActorInfo → ActorInfo
  walk zero pid a = a
  walk (suc hops) pid a = elim (ltb_int (pos 1) pid) [
    | false ↦ a
    | true ↦ elim (env.read_proc pid) [
      | none ↦ a
      | some info ↦
          if not (info.uid == env.uid) && not (env.uid == pos 0) && not (is_bridge info)
          then a
          else let seen =
              if not (is_bridge info) && info.uid == env.uid then record a { proc = info } else a in
            let d = desktop_of info in
            if is_valid d
            then record a { proc = info; desktop = d; confidence = "desktop" }
            else let up = walk hops info.ppid seen in
              if not (ltb_int (pos 1) info.ppid) || info.ppid == pid then seen else up
    ]
  ]

  abbrev pub max_hops : ℕ
  max_hops = 16

  abbrev confidence_of : ProcInfo → String
  confidence_of p =
      if p.exe == "" then (if p.name == "" then "unknown" else "name-only") else "exe-only"

  abbrev pub rate : ActorInfo → ActorInfo
  rate a = if is_valid a.desktop then a else record a { confidence = confidence_of a.proc }

  -- "Fill display names".
  unfoldable pub fill_names : ActorInfo → ActorInfo
  fill_names a =
      if is_valid a.desktop
      then record a { display_name = a.desktop.name; icon_name = a.desktop.icon_name }
      else if not (a.proc.exe == "")
      then record a {
        display_name = env.file_name a.proc.exe;
        icon_name =
            if a.icon_name == "" then env.to_lower (env.base_name a.proc.exe) else a.icon_name;
      }
      else if not (a.proc.name == "")
      then record a {
        display_name = a.proc.name;
        icon_name = if a.icon_name == "" then env.to_lower a.proc.name else a.icon_name;
      }
      else record a { display_name = "Unknown" }

  unfoldable pub fill_fallback : ActorInfo → ActorInfo
  fill_fallback a = record a {
    fallback_letter =
        if a.display_name == "" then a.fallback_letter else env.first_upper a.display_name;
    fallback_key = if is_valid a.desktop then a.desktop.desktop_id else env.to_lower a.display_name;
  }

  unfoldable pub resolve_requestor_from_subject : ProcInfo → ActorInfo
  unfolding walk fill_names fill_fallback
  resolve_requestor_from_subject subject =
      let found = walk max_hops subject.pid (record no_actor { proc = subject }) in
      fill_fallback (fill_names (rate found))

  -- resolveActorForPid of PinentryManager.cpp, and the same lines of KeyringManager::handleRequest.
  unfoldable pub resolve_actor_for_pid : ℤ → ActorInfo
  unfolding resolve_requestor_from_subject
  resolve_actor_for_pid pid = elim (env.read_proc pid) [
    | none ↦ no_actor
    | some p ↦ resolve_requestor_from_subject p
  ]

  abbrev positive : Option ℤ → Option ℤ
  positive none = none
  positive (some n) = if ltb_int (pos 0) n then some n else none

  abbrev or_pid : Option ℤ → Option ℤ → Option ℤ
  or_pid none o = o
  or_pid (some n) o = some n

  -- `details` is the lookup of PolkitQt1::Details.
  unfoldable pub extract_caller_pid : (String → String) → Option ℤ
  extract_caller_pid details = positive (env.to_long_long (details "polkit.caller-pid"))

  unfoldable pub extract_subject_pid : (String → String) → Option ℤ
  unfolding extract_caller_pid
  extract_subject_pid details =
      or_pid (positive (env.to_long_long (details "polkit.subject-pid")))
        (positive (env.to_long_long (details "polkit.caller-pid")))

  unfoldable pub classify_request : String → String → String → JsonObject
  classify_request source title description =
      let hint = λ (kind icon : String) (colorize : Bool).
        set_text "iconName" icon
          (object (("kind", str kind) ∷ ("colorize", boolean colorize) ∷ [])) in
      if source == "polkit"
      then hint "polkit" "security-high" true
      else if source == "keyring"
      then if env.contains_folded title "gpg" || env.contains_folded description "OpenPGP"
        then hint "gpg" "gnupg" true
        else if env.contains_folded title "ssh" || env.contains_folded description "ssh"
        then hint "ssh" "ssh-key" true
        else hint "keyring" "" true
      else hint "unknown" "" false

unfoldable pub actor_to_json : ActorInfo → JsonObject
unfolding proc_to_json
actor_to_json a =
    let base = object (("proc", obj (proc_to_json a.proc)) ∷ []) in
    let named =
      if is_valid a.desktop then set "desktopId" (str a.desktop.desktop_id) base else base in
    set "confidence" (str a.confidence) (
      set "fallbackKey" (str a.fallback_key) (
        set "fallbackLetter" (str a.fallback_letter)
          (set "iconName" (str a.icon_name) (set "displayName" (str a.display_name) named))))
