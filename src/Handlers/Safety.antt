-- ===== src/Handlers/Safety.antt =====
-- The invariant of the daemon between events, and its quiet steps.
use noctalia_unofficial_auth.Base.{
  refl, sym, String, Bool, true, false, List, [], ◌∷◌, if◌then◌else◌, comparable_string,
  comparable_nat, subst,
}
use noctalia_unofficial_auth.Base.Lists.{Unique}
use noctalia_unofficial_auth.Base.Table.{Table}
use noctalia_unofficial_auth.Json.{JsonObject}
use noctalia_unofficial_auth.EventQueue.{Socket, EventQueue}
use noctalia_unofficial_auth.Environment.{Env}
use noctalia_unofficial_auth.ProviderRegistry.{ProviderRegistry}
use noctalia_unofficial_auth.ProviderRegistry.Authority.{RegistryOk}
use noctalia_unofficial_auth.RequestTypes.{KeyringRequest, PinentryTables, PolkitTables}
use noctalia_unofficial_auth.Agent.{Agent, Effect, send}
use noctalia_unofficial_auth.Agent.Steps.{IsClean, IsQuiet, QueueOk, CoreOk, Step, Said, Said-trans}
use noctalia_unofficial_auth.Agent.Emit.{Outputs-Step, send_json-Outputs}
use noctalia_unofficial_auth.PinentryManager.Frames.{Moves}
use noctalia_unofficial_auth.PinentryManager.Flows.{FlowsOk}

pub record Inv (a : Agent) : Type 0 where
  pub core : CoreOk a
  pub flows : FlowsOk a.flows
  pub subscribers : Unique a.subscribers

-- The invariant is kept, and no password is sent.
abbrev pub Quiet : Agent → Agent → Type 0
Quiet a b = Inv a → Inv b × Said IsQuiet a b

pub Quiet-refl : (a : Agent) → Quiet a a
Quiet-refl a h = (h, ([], refl, tt))

pub Quiet-trans : (a b c : Agent) → Quiet a b → Quiet b c → Quiet a c
Quiet-trans a b c s t h =
    let (k, said) = s h in let (l, more) = t k in (l, Said-trans IsQuiet a b c said more)

pub Quiet-if : (t : Bool) (a b c : Agent) → Quiet a b → Quiet a c → Quiet a (if t then b else c)
Quiet-if true a b c h k = h
Quiet-if false a b c h k = k

pub Step-Quiet : (a b : Agent) → Step a b → Quiet a b
Step-Quiet a b s h =
    let f = s h.core in
    (
      record {
        core = f.core;
        flows = subst FlowsOk (sym f.flows) h.flows;
        subscribers = subst Unique (sym f.subscribers) h.subscribers;
      },
      f.said,
    )

pub Moves-Quiet :
    (f : PinentryTables) (a b : Agent)
    → (CoreOk a → Moves f a b)
    → (FlowsOk a.flows → FlowsOk f)
    → Quiet a b
Moves-Quiet f a b m k h =
    let n = m h.core in
    (
      record {
        core = n.core;
        flows = subst FlowsOk (sym n.flows) (k h.flows);
        subscribers = subst Unique (sym n.subscribers) h.subscribers;
      },
      n.said,
    )

pub send-Quiet :
    (env : Env) (s : Socket) (json : JsonObject) (a : Agent)
    → IsClean json
    → Quiet a (send env s json a)
send-Quiet env s json a c =
    Step-Quiet a _ (Outputs-Step a _ (send_json-Outputs env s json false a c))

-- Changes of one part of the state.
module _ (a : Agent) where
  pub keyring-Quiet :
      (m : Table String KeyringRequest) → Quiet a (record a { keyring_requests = m })
  keyring-Quiet m h = (
    record {
      core = record { queue = h.core.queue; registry = h.core.registry };
      flows = h.flows;
      subscribers = h.subscribers;
    },
    ([], refl, tt),
  )

  pub listener-Quiet : (l : PolkitTables) → Quiet a (record a { listener = l })
  listener-Quiet l h = (
    record {
      core = record { queue = h.core.queue; registry = h.core.registry };
      flows = h.flows;
      subscribers = h.subscribers;
    },
    ([], refl, tt),
  )

  pub queue-Quiet :
      (q : EventQueue)
      → (QueueOk a.event_queue → QueueOk q)
      → Quiet a (record a { event_queue = q })
  queue-Quiet q k h = (
    record {
      core = record { queue = k h.core.queue; registry = h.core.registry };
      flows = h.flows;
      subscribers = h.subscribers;
    },
    ([], refl, tt),
  )

  pub registry-Quiet :
      (r : ProviderRegistry)
      → (RegistryOk a.registry → RegistryOk r)
      → Quiet a (record a { registry = r })
  registry-Quiet r k h = (
    record {
      core = record { queue = h.core.queue; registry = k h.core.registry };
      flows = h.flows;
      subscribers = h.subscribers;
    },
    ([], refl, tt),
  )

  pub subscribers-Quiet :
      (ss : List Socket)
      → (Unique a.subscribers → Unique ss)
      → Quiet a (record a { subscribers = ss })
  subscribers-Quiet ss k h = (
    record {
      core = record { queue = h.core.queue; registry = h.core.registry };
      flows = h.flows;
      subscribers = k h.subscribers;
    },
    ([], refl, tt),
  )

  -- An effect that sends nothing.
  pub effect-Quiet : (e : Effect) → IsQuiet e → Quiet a (record a { trace = e ∷ a.trace })
  effect-Quiet e q h = (
    record {
      core = record { queue = h.core.queue; registry = h.core.registry };
      flows = h.flows;
      subscribers = h.subscribers;
    },
    (e ∷ [], refl, (q, tt)),
  )
