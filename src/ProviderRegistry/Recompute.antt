-- ===== src/ProviderRegistry/Recompute.antt =====
-- recomputeActiveProvider: which providers stay, and which one becomes active.
use noctalia_unofficial_auth.Base.{
  ◌+◌, ◌≤◌, ◌≡◌, ◌≢◌, ◌↔◌, refl, inl, inr, Bool, true, not, Option, none, some, [], ◌∷◌, arith,
  comparable_nat, Bool-cases,
}
use noctalia_unofficial_auth.Base.Int.{comparable_int}
use noctalia_unofficial_auth.Base.Table.{
  Table, lookup, Distinct, retain, keep_if, lookup-retain, retain-Distinct,
}
use noctalia_unofficial_auth.EventQueue.{Socket, nullptr}
use noctalia_unofficial_auth.Environment.{Env}
use noctalia_unofficial_auth.ProviderRegistry.{
  ProviderRegistry, UiProvider, Best, no_best, pick, dropped, scan, recompute_active_provider,
}
use noctalia_unofficial_auth.ProviderRegistry.Choice.{
  best_of, NonNull, BestIsActive, best_of-active,
}

-- The loop's two results apart: the entries that stay, and the best of those.
abbrev pub live : Env → Table Socket UiProvider → Table Socket UiProvider
live env = retain (λ s p. not (dropped env s p))

scan_lem :
    (env : Env) (m : Table Socket UiProvider) (b : Best)
    → scan env m b ≡ (live env m, best_of b (live env m))
unfolding scan retain
scan_lem env [] b = refl
scan_lem env ((s, p) ∷ m) b = elim (Bool-cases (dropped env s p)) [
  | inl out ↦ rw (out, scan_lem env m b)
  | inr stays ↦ rw (stays, scan_lem env m (pick b s p))
]

recompute_lem :
    (env : Env) (r : ProviderRegistry)
    → (recompute_active_provider env r).1 ≡ record {
      ui_providers = live env r.ui_providers;
      active_provider = (best_of no_best (live env r.ui_providers)).socket;
    }
unfolding recompute_active_provider
recompute_lem env r = rw (scan_lem env r.ui_providers no_best)

live-NonNull : (env : Env) (m : Table Socket UiProvider) → NonNull (live env m)
unfolding retain dropped
live-NonNull env [] = tt
live-NonNull env ((s, p) ∷ m) = ground (arith, live-NonNull env m)

pub lookup-recompute :
    (env : Env) (r : ProviderRegistry)
    → Distinct r.ui_providers
    → (s : Socket)
    → lookup s (recompute_active_provider env r).1.ui_providers
      ≡ keep_if (λ p. not (dropped env s p)) (lookup s r.ui_providers)
lookup-recompute env r d s =
    rw (recompute_lem env r) (lookup-retain (λ t p. not (dropped env t p)) s r.ui_providers d)

-- A provider that may stay: its socket is connected, and its last heartbeat at most 15 seconds old.
abbrev pub IsLive : Env → Socket → UiProvider → Type 0
IsLive env s p =
    (s ≢ nullptr) × (env.connected s ≡ true) × (env.now_ms ≤ p.last_heartbeat_ms + 15000)

dropped_iff :
    (env : Env) (s : Socket) (p : UiProvider) → (not (dropped env s p) ≡ true) ↔ IsLive env s p
unfolding dropped
dropped_iff env s p = (λ h. ground arith, λ h. ground arith)

keep_if_iff :
    (test : UiProvider → Bool) (o : Option UiProvider) (p : UiProvider)
    → (keep_if test o ≡ some p) ↔ ((o ≡ some p) × (test p ≡ true))
keep_if_iff test none p = (λ h. absurd (cc h), λ h. absurd (cc (h.0)))
keep_if_iff test (some x) p = ground arith

-- Recomputing keeps exactly the providers whose sockets are not null and connected and whose last
-- heartbeats are at most 15 seconds old, each as it was.
pub recompute-keeps :
    (env : Env) (r : ProviderRegistry)
    → Distinct r.ui_providers
    → (s : Socket) (p : UiProvider)
    → (lookup s (recompute_active_provider env r).1.ui_providers ≡ some p)
      ↔ ((lookup s r.ui_providers ≡ some p) × IsLive env s p)
recompute-keeps env r d s p = rw (lookup-recompute env r d s) (
    ground (
      arith,
      keep_if_iff (λ x. not (dropped env s x)) (lookup s r.ui_providers) p,
      dropped_iff env s p,
    ))

-- After recomputing, the active provider is a registered one that no other beats: none has a higher
-- priority, nor the same priority and a later heartbeat. There is none only if no provider is left.
pub recompute-BestIsActive :
    (env : Env) (r : ProviderRegistry)
    → Distinct r.ui_providers
    → BestIsActive (recompute_active_provider env r).1
recompute-BestIsActive env r d = rw (recompute_lem env r) (
    best_of-active (live env r.ui_providers)
      (retain-Distinct (λ t p. not (dropped env t p)) r.ui_providers d)
      (live-NonNull env r.ui_providers))

pub recompute-Distinct :
    (env : Env) (r : ProviderRegistry)
    → Distinct r.ui_providers
    → Distinct (recompute_active_provider env r).1.ui_providers
recompute-Distinct env r d =
    rw (recompute_lem env r) (retain-Distinct (λ t p. not (dropped env t p)) r.ui_providers d)
