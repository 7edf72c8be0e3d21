-- ===== src/RequestContext/Requestor.antt =====
-- Who is shown to the user as the one who asks.
use noctalia_unofficial_auth.Base.{
  ℕ, zero, suc, ◌≡◌, ◌⊎◌, refl, inl, inr, Bool, true, false, not, ◌&&◌, ◌||◌, some, ◌==◌,
  if◌then◌else◌, comparable_string, arith, Bool-cases, Option-cases,
}
use noctalia_unofficial_auth.Base.Int.{ℤ, pos, ltb_int, comparable_int}
use noctalia_unofficial_auth.Environment.{Env, ProcInfo}
use noctalia_unofficial_auth.RequestContext.Names.{
  IsNamed, fill-IsNamed, rate-no_icon, walk-no_icon,
}
use noctalia_unofficial_auth.RequestContext.{
  ActorInfo, no_actor, is_valid, is_bridge, desktop_of, walk, max_hops, fill_names, fill_fallback,
  rate, resolve_requestor_from_subject,
}

own_lem : (same root bridge : Bool) → (not bridge && same) ≡ true → (same || root || bridge) ≡ true
own_lem same root bridge h = ground (arith, h)

near_lem :
    (same root bridge : Bool)
    → (not same && not root && not bridge) ≡ false
    → (same || root || bridge) ≡ true
near_lem same root bridge h = ground (arith, h)

module _ (env : Env) where
  -- The agent's own user runs the process, or the agent is root, or the process is a bridge.
  abbrev pub may_show : ProcInfo → Bool
  may_show p = p.uid == env.uid || env.uid == pos 0 || is_bridge env p

  -- The process is the subject, or one that /proc tells of and that may be shown; the desktop entry,
  -- if there is one, is that of the process.
  abbrev pub IsOwnRequestor : ProcInfo → ActorInfo → Type 0
  IsOwnRequestor subject a =
      ((a.proc ≡ subject)
        ⊎ ((pid : ℤ) × (env.read_proc pid ≡ some a.proc) × (may_show a.proc ≡ true)))
      × ((is_valid a.desktop ≡ false) ⊎ (a.desktop ≡ desktop_of env a.proc))

  IsOwnRequestor-if :
      (subject : ProcInfo) (t : Bool) (a b : ActorInfo)
      → IsOwnRequestor subject a
      → IsOwnRequestor subject b
      → IsOwnRequestor subject (if t then a else b)
  IsOwnRequestor-if subject true a b h k = h
  IsOwnRequestor-if subject false a b h k = k

  -- An if whose branches may use the outcome of the test.
  IsOwnRequestor-test :
      (subject : ProcInfo) (t : Bool) (a b : ActorInfo)
      → (t ≡ true → IsOwnRequestor subject a)
      → (t ≡ false → IsOwnRequestor subject b)
      → IsOwnRequestor subject (if t then a else b)
  IsOwnRequestor-test subject true a b h k = h refl
  IsOwnRequestor-test subject false a b h k = k refl

  bare-if :
      (t : Bool) (p : ProcInfo) (a : ActorInfo)
      → is_valid a.desktop ≡ false
      → is_valid (if t then record a { proc = p } else a).desktop ≡ false
  bare-if true p a h = h
  bare-if false p a h = h

  seen-IsOwnRequestor :
      (subject : ProcInfo) (pid : ℤ) (info : ProcInfo) (a : ActorInfo)
      → env.read_proc pid ≡ some info
      → is_valid a.desktop ≡ false
      → IsOwnRequestor subject a
      → IsOwnRequestor subject
          (if not (is_bridge env info) && info.uid == env.uid then record a { proc = info } else a)
  seen-IsOwnRequestor subject pid info a found bare h =
      IsOwnRequestor-test subject (not (is_bridge env info) && info.uid == env.uid) _ a
        (λ own. (
          inr (
            pid,
            found,
            own_lem (info.uid == env.uid) (env.uid == pos 0) (is_bridge env info) own,
          ),
          inl bare,
        ))
        (λ other. h)

  walk-IsOwnRequestor :
      (subject : ProcInfo) (hops : ℕ) (pid : ℤ) (a : ActorInfo)
      → is_valid a.desktop ≡ false
      → IsOwnRequestor subject a
      → IsOwnRequestor subject (walk env hops pid a)
  unfolding walk
  walk-IsOwnRequestor subject zero pid a bare h = h
  walk-IsOwnRequestor subject (suc hops) pid a bare h = elim (Bool-cases (ltb_int (pos 1) pid)) [
    | inr e ↦ rw (e, walk) h
    | inl e ↦ elim (Option-cases (env.read_proc pid)) [
      | inl gone ↦ rw (e, gone, walk) h
      | inr (info, found) ↦
          let own = not (is_bridge env info) && info.uid == env.uid in
          let seen = if own then record a { proc = info } else a in
          let foreign =
            not (info.uid == env.uid) && not (env.uid == pos 0) && not (is_bridge env info) in
          let kept = seen-IsOwnRequestor subject pid info a found bare h in
          rw (e, found, walk)
            (IsOwnRequestor-test subject foreign a _ (λ stop. h)
              (λ near.
                IsOwnRequestor-test subject (is_valid (desktop_of env info))
                  (record a { proc = info; desktop = desktop_of env info; confidence = "desktop" })
                  _
                  (λ entry. (
                    inr (
                      pid,
                      found,
                      near_lem (info.uid == env.uid) (env.uid == pos 0) (is_bridge env info) near,
                    ),
                    inr refl,
                  ))
                  (λ none_found. IsOwnRequestor-if subject _ seen _ kept (
                    walk-IsOwnRequestor subject hops info.ppid seen (bare-if own info a bare)
                      kept))))
    ]
  ]

  names-IsOwnRequestor :
      (subject : ProcInfo) (a : ActorInfo)
      → IsOwnRequestor subject a
      → IsOwnRequestor subject (fill_fallback env (fill_names env a))
  unfolding fill_names fill_fallback
  names-IsOwnRequestor subject a h =
      (IsOwnRequestor-if subject (is_valid a.desktop) _ _ h (
        IsOwnRequestor-if subject (not (a.proc.exe == "")) _ _ h
          (IsOwnRequestor-if subject (not (a.proc.name == "")) _ _ h h)))

  -- Who is shown as asking is the process that asked, or one that /proc tells of and that belongs to
  -- the agent's user, or any if that is root, or is pkexec, sudo or doas; the desktop entry, if there
  -- is one, is that of the process; and the name and the icon that are shown are the entry's, or
  -- without one, made of the path or of the name of that process, or the name is `Unknown`.
  pub resolve_requestor_from_subject-IsOwnRequestor :
      (subject : ProcInfo)
      → let shown = resolve_requestor_from_subject env subject in
        IsOwnRequestor subject shown × IsNamed env shown
  unfolding resolve_requestor_from_subject
  resolve_requestor_from_subject-IsOwnRequestor subject =
      let first : ActorInfo = record no_actor { proc = subject } in
      let found = walk env (max_hops env) subject.pid first in
      let own =
        walk-IsOwnRequestor subject (max_hops env) subject.pid first refl (inl refl, inl refl) in
      (
        names-IsOwnRequestor subject (rate env found)
            (IsOwnRequestor-if subject (is_valid found.desktop) found _ own own),
        fill-IsNamed env (rate env found)
            (rate-no_icon env found (walk-no_icon env (max_hops env) subject.pid first refl)),
      )
