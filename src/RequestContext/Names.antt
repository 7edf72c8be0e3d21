-- ===== src/RequestContext/Names.antt =====
-- The name and the icon of who is shown as asking.
use noctalia_unofficial_auth.Base.{
  ℕ, zero, suc, ◌≡◌, ◌≢◌, ◌⊎◌, String, eq_of_==, refl, inl, inr, Bool, true, false, not, ◌&&◌, ◌||◌,
  ◌==◌, if◌then◌else◌, comparable_string, arith, Bool-cases, Option-cases,
}
use noctalia_unofficial_auth.Base.Int.{ℤ, pos, ltb_int, comparable_int}
use noctalia_unofficial_auth.Environment.{Env}
use noctalia_unofficial_auth.RequestContext.{
  ActorInfo, is_valid, is_bridge, desktop_of, walk, fill_names, fill_fallback, rate,
}

filled : (s : String) → (s == "") ≡ false → s ≢ ""
filled s h same = ground (arith, comparable_string.same_iff s "")

module _ (env : Env) where
  -- The name and the icon that are shown are those of the desktop entry; without one, they are made of
  -- the path of the program, or else of the name of the process, or the name is `Unknown`.
  abbrev pub IsNamed : ActorInfo → Type 0
  IsNamed a =
      ((is_valid a.desktop ≡ true)
        × (a.display_name ≡ a.desktop.name)
        × (a.icon_name ≡ a.desktop.icon_name))
      ⊎ (((is_valid a.desktop ≡ false)
            × (a.proc.exe ≢ "")
            × (a.display_name ≡ env.file_name a.proc.exe)
            × (a.icon_name ≡ env.to_lower (env.base_name a.proc.exe)))
          ⊎ ((is_valid a.desktop ≡ false)
              × (a.proc.exe ≡ "")
              × (((a.proc.name ≢ "")
                    × (a.display_name ≡ a.proc.name)
                    × (a.icon_name ≡ env.to_lower a.proc.name))
                  ⊎ ((a.proc.name ≡ "") × (a.display_name ≡ "Unknown") × (a.icon_name ≡ "")))))

  no_icon-if :
      (t : Bool) (a b : ActorInfo)
      → a.icon_name ≡ ""
      → b.icon_name ≡ ""
      → (if t then a else b).icon_name ≡ ""
  no_icon-if true a b h k = h
  no_icon-if false a b h k = k

  pub walk-no_icon :
      (hops : ℕ) (pid : ℤ) (a : ActorInfo) → a.icon_name ≡ "" → (walk env hops pid a).icon_name ≡ ""
  unfolding walk
  walk-no_icon zero pid a h = h
  walk-no_icon (suc hops) pid a h = elim (Bool-cases (ltb_int (pos 1) pid)) [
    | inr e ↦ rw (e, walk) h
    | inl e ↦ elim (Option-cases (env.read_proc pid)) [
      | inl gone ↦ rw (e, gone, walk) h
      | inr (info, found) ↦
          let own = not (is_bridge env info) && info.uid == env.uid in
          let seen = if own then record a { proc = info } else a in
          let kept = no_icon-if own (record a { proc = info }) a h h in
          rw (e, found, walk)
            (no_icon-if
              (not (info.uid == env.uid) && not (env.uid == pos 0) && not (is_bridge env info)) a _
              h
              (no_icon-if (is_valid (desktop_of env info)) _ _ h (
                no_icon-if (not (ltb_int (pos 1) info.ppid) || info.ppid == pid) seen _ kept
                  (walk-no_icon hops info.ppid seen kept))))
    ]
  ]

  pub fill-IsNamed :
      (a : ActorInfo) → a.icon_name ≡ "" → IsNamed (fill_fallback env (fill_names env a))
  unfolding fill_names fill_fallback
  fill-IsNamed a h = elim (Bool-cases (is_valid a.desktop)) [
    | inl e ↦ rw e (inl (e, refl, refl))
    | inr e ↦ elim (Bool-cases (a.proc.exe == "")) [
      | inr f ↦ rw (e, f, h) (inr (inl (e, (λ same. filled a.proc.exe f same), refl, refl)))
      | inl f ↦
          let no_exe = eq_of_== a.proc.exe "" f in
          elim (Bool-cases (a.proc.name == "")) [
            | inr g ↦
                rw (e, f, g, h)
                  (inr (inr (e, no_exe, inl ((λ same. filled a.proc.name g same), refl, refl))))
            | inl g ↦ rw (e, f, g) (inr (inr (e, no_exe, inr (eq_of_== a.proc.name "" g, refl, h))))
          ]
    ]
  ]

  pub rate-no_icon : (a : ActorInfo) → a.icon_name ≡ "" → (rate env a).icon_name ≡ ""
  rate-no_icon a h = no_icon-if (is_valid a.desktop) a _ h h
