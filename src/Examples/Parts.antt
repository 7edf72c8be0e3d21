-- ===== src/Examples/Parts.antt =====
-- The theorems about the registry, the queue of events and their routing, applied.
use noctalia_unofficial_auth.Base.{
  ◌≡◌, ◌≢◌, some, ◌⊎◌, ◌↔◌, refl, true, ◌||◌, [], ◌∷◌, arith, comparable_string, comparable_nat,
}
use noctalia_unofficial_auth.Base.Lists.{length, drop, contains}
use noctalia_unofficial_auth.Base.Table
use noctalia_unofficial_auth.Base.Table.{lookup, remove, insert, keep_if, Distinct}
use noctalia_unofficial_auth.Json.{JsonObject, object, str, empty}
use noctalia_unofficial_auth.EventQueue.{Socket, EventQueue, new_queue, is_nil, drain_to_waiters}
use noctalia_unofficial_auth.EventQueue.Bounds.{enqueue_all, newest, enqueue_all-newest}
use noctalia_unofficial_auth.EventQueue.Drain.{pairs, send_all, drain_to_waiters-pairs}
use noctalia_unofficial_auth.EventRouter.{route}
use noctalia_unofficial_auth.EventRouter.Routing.{note, is_first, is_addressed, contains-route}
use noctalia_unofficial_auth.ProviderRegistry.{
  is_authorized, recompute_active_provider, heartbeat, unregister_provider,
}
use noctalia_unofficial_auth.ProviderRegistry.Choice.{BestIsActive}
use noctalia_unofficial_auth.ProviderRegistry.Recompute.{
  IsLive, recompute-keeps, recompute-BestIsActive,
}
use noctalia_unofficial_auth.ProviderRegistry.Authority.{
  is_authorized-unregister_provider, recompute-heartbeat,
}
use noctalia_unofficial_auth.Examples.{env_at, two_providers, window}

two_providers-Distinct : Distinct two_providers.ui_providers
unfolding lookup
two_providers-Distinct = (refl, (refl, tt))

recompute-BestIsActive_example :
    BestIsActive (recompute_active_provider (env_at 2000) two_providers).1
recompute-BestIsActive_example =
    recompute-BestIsActive (env_at 2000) two_providers two_providers-Distinct

abbrev six : Socket
six = 6

abbrev five : Socket
five = 5

is_authorized-unregister_provider_example :
    let left = (unregister_provider 6 two_providers).1 in
    (is_authorized 5 left ≡ true) ↔ (
      (left.ui_providers ≡ [])
      ⊎ ((five ≡ two_providers.active_provider)
          × (Table.contains 5 two_providers.ui_providers ≡ true)
          × (six ≢ 5)))
is_authorized-unregister_provider_example = is_authorized-unregister_provider 6 5 two_providers

recompute-keeps_example :
    (lookup 6 (recompute_active_provider (env_at 15950) two_providers).1.ui_providers ≡ some window)
    ↔ ((lookup 6 two_providers.ui_providers ≡ some window) × IsLive (env_at 15950) 6 window)
recompute-keeps_example =
    recompute-keeps (env_at 15950) two_providers two_providers-Distinct 6 window

knows_five : Table.contains 5 two_providers.ui_providers ≡ true
unfolding lookup
knows_five = refl

recompute-heartbeat_example :
    Table.contains 5
      (recompute_active_provider
        (env_at 20000)
        (heartbeat (env_at 9000) 5 two_providers).1).1.ui_providers
    ≡ true
recompute-heartbeat_example =
    recompute-heartbeat (env_at 9000) (env_at 20000) 5 two_providers two_providers-Distinct
      knows_five (ground arith) refl (omega arith)

abbrev opened_event : JsonObject
opened_event = object (("type", str "session.created") ∷ [])

-- The provider is sent the event, and so is a socket that waits.
abbrev one_waits : EventQueue
one_waits = record { max_size = 256; events = []; next_waiters = 7 ∷ [] }

contains-route_example :
    contains six
      (route (env_at 0) (note (λ e. true)) two_providers one_waits opened_event (6 ∷ []) []).1
    ≡ (is_first six one_waits.next_waiters
        || is_addressed (env_at 0) two_providers opened_event (6 ∷ []) six)
contains-route_example =
    contains-route (env_at 0) (λ e. true) two_providers one_waits opened_event (6 ∷ []) 6 refl refl

enqueue_all-newest_example :
    (enqueue_all (opened_event ∷ empty ∷ opened_event ∷ []) (new_queue 2)).events
    ≡ newest 2 (opened_event ∷ empty ∷ opened_event ∷ [])
enqueue_all-newest_example =
    enqueue_all-newest 2 (opened_event ∷ empty ∷ opened_event ∷ []) (omega arith)

abbrev two_wait : EventQueue
two_wait = record { max_size = 256; events = opened_event ∷ []; next_waiters = 7 ∷ 8 ∷ [] }

drain_to_waiters-pairs_example :
    (drain_to_waiters (note (λ e. true)) two_wait [] ≡ (
      record two_wait {
        events = drop (length two_wait.next_waiters) two_wait.events;
        next_waiters = drop (length two_wait.events) two_wait.next_waiters;
      },
      send_all (note (λ e. true)) (pairs two_wait.next_waiters two_wait.events) [],
    ))
    × ((is_nil (drop (length two_wait.next_waiters) two_wait.events)
          || is_nil (drop (length two_wait.events) two_wait.next_waiters))
        ≡ true)
drain_to_waiters-pairs_example = drain_to_waiters-pairs (note (λ e. true)) two_wait []
