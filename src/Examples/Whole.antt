-- ===== src/Examples/Whole.antt =====
-- The theorems about the daemon and its handlers, applied.
use mathlib.Core.Bool.{false≢true}
use noctalia_unofficial_auth.Base.{◌≡◌, ◌⊎◌, refl, some, arith, comparable_string, comparable_nat}
use noctalia_unofficial_auth.Base.Lists.{All}
use noctalia_unofficial_auth.Base.Table.{lookup}
use noctalia_unofficial_auth.ProviderRegistry.{
  ProviderRegistry, recompute_active_provider, scan, dropped,
}
use noctalia_unofficial_auth.ProviderRegistry.Authority.{RegistryOk}
use noctalia_unofficial_auth.Agent.{send}
use noctalia_unofficial_auth.Agent.Steps.{IsQuiet, Said}
use noctalia_unofficial_auth.KeyringManager.{error_reply}
use noctalia_unofficial_auth.Handlers.{set_registry, handle_respond, handle_cancel}
use noctalia_unofficial_auth.Handlers.Safety.{Inv}
use noctalia_unofficial_auth.Handlers.Secrets.{Released, handle_respond_releases}
use noctalia_unofficial_auth.Handlers.Cancel.{Below, outranked_changes_nothing}
use noctalia_unofficial_auth.Daemon.{run}
use noctalia_unofficial_auth.Daemon.Runs.{IsAccounted, run-Inv, run-IsAccounted}
use noctalia_unofficial_auth.Examples.{
  env_at, start, day, keyring_waits, respond, two_providers, shell, window,
}

run-IsAccounted_example : All (IsAccounted day start) (run day start).trace
run-IsAccounted_example = run-IsAccounted "/run/bb-auth.sock" day

run-Inv_example : Inv (run day start)
run-Inv_example = run-Inv "/run/bb-auth.sock" day

two_providers-RegistryOk : RegistryOk two_providers
unfolding lookup
two_providers-RegistryOk = record { distinct = (refl, (refl, tt)); known = refl }

keyring_waits-Inv : Inv keyring_waits
unfolding lookup
keyring_waits-Inv = record {
  core = record {
    queue = record { room = omega arith; bounded = omega arith; clean = tt; served = refl };
    registry = two_providers-RegistryOk;
  };
  flows = record { apart = λ c. refl; owned = λ c h. absurd (false≢true h) };
  subscribers = tt;
}

handle_respond_releases_example :
    Inv (handle_respond (env_at 3000) 5 respond keyring_waits)
    × Said
        (λ e. IsQuiet e ⊎ Released 5 respond keyring_waits e)
        keyring_waits
        (handle_respond (env_at 3000) 5 respond keyring_waits)
handle_respond_releases_example =
    handle_respond_releases (env_at 3000) 5 respond keyring_waits keyring_waits-Inv

-- The providers as they were recomputed; the window ranks below the shell.
abbrev recomputed : ProviderRegistry
recomputed = (recompute_active_provider (env_at 3000) two_providers).1

shell_stays : lookup 5 recomputed.ui_providers ≡ some shell
unfolding lookup recompute_active_provider scan dropped
shell_stays = refl

window_stays : lookup 6 recomputed.ui_providers ≡ some window
unfolding lookup recompute_active_provider scan dropped
window_stays = refl

window-Below : Below window shell
window-Below = ground arith

outranked_changes_nothing_example :
    let b = set_registry recomputed keyring_waits in
    (handle_respond (env_at 4000) 6 respond b
      ≡ send (env_at 4000) 6 (error_reply "Not active UI provider") b)
    × (handle_cancel (env_at 4000) 6 respond b
        ≡ send (env_at 4000) 6 (error_reply "Not active UI provider") b)
outranked_changes_nothing_example =
    outranked_changes_nothing (env_at 3000) (env_at 4000) respond 5 6 shell window keyring_waits
      two_providers-RegistryOk.distinct shell_stays window_stays window-Below
