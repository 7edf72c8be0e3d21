-- ===== src/ProviderRegistry/Authority.antt =====
-- Who may answer prompts, and what the operations on the registry keep.
use noctalia_unofficial_auth.Base.{
  ◌+◌, ◌≤◌, ◌≡◌, ◌≢◌, ◌↔◌, refl, ◌⊎◌, inl, inr, true, ◌||◌, List, [], ◌∷◌, arith, ◌==◌,
  comparable_nat, comparable_string, Option-cases, ==-refl,
}
use noctalia_unofficial_auth.Base.Table.{
  Table, lookup, contains, remove, contains-remove, Distinct, insert-Distinct, remove-Distinct,
  lookup-insert,
}
use noctalia_unofficial_auth.EventQueue.{Socket, nullptr, is_nil}
use mathlib.Core.Bool.{false≢true}
use noctalia_unofficial_auth.Environment.{Env}
use noctalia_unofficial_auth.Json.{JsonObject}
use noctalia_unofficial_auth.ProviderRegistry.{
  ProviderRegistry, UiProvider, dropped, is_authorized, register_provider, heartbeat,
  unregister_provider, recompute_active_provider, heartbeat_timeout_ms,
}
use noctalia_unofficial_auth.ProviderRegistry.Choice.{BestIsActive}
use noctalia_unofficial_auth.ProviderRegistry.Recompute.{
  lookup-recompute, recompute-BestIsActive, recompute-Distinct,
}

remove-nil :
    (s : Socket) (m : Table Socket UiProvider) → is_nil m ≡ true → is_nil (remove s m) ≡ true
unfolding remove
remove-nil s [] h = refl
remove-nil s (x ∷ m) h = absurd (false≢true h)

is_nil_iff {ℓ} : {A : Type ℓ} (l : List A) → (is_nil l ≡ true) ↔ (l ≡ [])
is_nil_iff [] = (λ h. refl, λ h. refl)
is_nil_iff (x ∷ l) = (λ h. cc, λ h. cc)

-- What holds of the registry between events: no socket is registered twice, and the active provider
-- is registered, or there is none.
pub record RegistryOk (r : ProviderRegistry) : Type 0 where
  pub distinct : Distinct r.ui_providers
  pub known : (r.active_provider == nullptr || contains r.active_provider r.ui_providers) ≡ true

pub is_authorized-unregister_provider :
    (s t : Socket) (r : ProviderRegistry)
    → let left = (unregister_provider s r).1 in
      (is_authorized t left ≡ true) ↔ (
        (left.ui_providers ≡ [])
        ⊎ ((t ≡ r.active_provider) × (contains t r.ui_providers ≡ true) × (s ≢ t)))
unfolding is_authorized unregister_provider
is_authorized-unregister_provider s t r = ground (
  arith,
  is_nil_iff (remove s r.ui_providers),
  contains-remove s t r.ui_providers,
  comparable_nat.same_iff s t,
  comparable_nat.same_iff t r.active_provider,
  remove-nil s r.ui_providers,
)

BestIsActive-known :
    (r : ProviderRegistry)
    → BestIsActive r
    → (r.active_provider == nullptr || contains r.active_provider r.ui_providers) ≡ true
BestIsActive-known r (inl (e, h)) = rw h
BestIsActive-known r (inr (p, e, h, k)) = ground (arith, e)

-- Recomputing restores what holds of the registry, given that no socket is registered twice.
pub recompute-RegistryOk :
    (env : Env) (r : ProviderRegistry)
    → Distinct r.ui_providers
    → RegistryOk (recompute_active_provider env r).1
recompute-RegistryOk env r d = record {
  distinct = recompute-Distinct env r d;
  known = BestIsActive-known _ (recompute-BestIsActive env r d);
}

pub register_provider-Distinct :
    (env : Env) (s : Socket) (msg : JsonObject) (r : ProviderRegistry)
    → Distinct r.ui_providers
    → Distinct (register_provider env s msg r).1.ui_providers
unfolding register_provider
register_provider-Distinct env s msg r d = insert-Distinct s _ r.ui_providers d

pub heartbeat-Distinct :
    (env : Env) (s : Socket) (r : ProviderRegistry)
    → Distinct r.ui_providers
    → Distinct (heartbeat env s r).1.ui_providers
unfolding heartbeat
heartbeat-Distinct env s r d = elim (Option-cases (lookup s r.ui_providers)) [
  | inl e ↦ rw (e, heartbeat) d
  | inr (p, e) ↦ rw (e, heartbeat) (insert-Distinct s _ r.ui_providers d)
]

pub unregister_provider-Distinct :
    (s : Socket) (r : ProviderRegistry)
    → Distinct r.ui_providers
    → Distinct (unregister_provider s r).1.ui_providers
unfolding unregister_provider
unregister_provider-Distinct s r d = remove-Distinct s r.ui_providers d

-- A heartbeat of a registered provider, whose socket is connected, keeps it registered through any
-- recomputation in the following 15 seconds, whatever its heartbeat was before.
pub recompute-heartbeat :
    (env later : Env) (s : Socket) (r : ProviderRegistry)
    → Distinct r.ui_providers
    → contains s r.ui_providers ≡ true
    → s ≢ nullptr
    → later.connected s ≡ true
    → later.now_ms ≤ env.now_ms + heartbeat_timeout_ms
    → contains s (recompute_active_provider later (heartbeat env s r).1).1.ui_providers ≡ true
unfolding heartbeat dropped
recompute-heartbeat env later s r d known real up soon =
    rw (lookup-recompute later (heartbeat env s r).1 (heartbeat-Distinct env s r d) s)
      (elim (Option-cases (lookup s r.ui_providers)) [
        | inl e ↦ absurd (false≢true (rw e at known))
        | inr (p, e) ↦ rw (e, heartbeat) (simp (lookup-insert, ==-refl) (ground arith))
      ])
