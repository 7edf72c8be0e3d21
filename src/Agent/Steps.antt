-- ===== src/Agent/Steps.antt =====
-- What every operation on sessions leaves alone, keeps and says: the frame of the proofs about the
-- managers and the handlers.
use noctalia_unofficial_auth.Base.{
  ◌≤◌, ◌<◌, ◌≡◌, refl, sym, ap, ◌∙◌, Bool, true, false, ◌||◌, List, [], ◌++◌, append_assoc,
  comparable_nat, if◌then◌else◌,
}
use noctalia_unofficial_auth.Base.Lists.{length, All, All-append}
use noctalia_unofficial_auth.Json
use noctalia_unofficial_auth.Json.{JsonObject}
use noctalia_unofficial_auth.EventQueue.{EventQueue, is_nil}
use noctalia_unofficial_auth.ProviderRegistry.Authority.{RegistryOk}
use noctalia_unofficial_auth.Agent.{Agent, Effect, sent}

-- The object has no password field.
abbrev pub IsClean : JsonObject → Type 0
IsClean json = Json.contains "password" json ≡ false

-- Nothing was sent that has a password field.
abbrev pub IsQuiet : Effect → Type 0
IsQuiet (sent s json wipe) = IsClean json
IsQuiet _ = Unit {0}

-- The queue is within its capacity and clean, and no event waits while a socket waits for one.
pub record QueueOk (q : EventQueue) : Type 0 where
  pub room : 0 < q.max_size
  pub bounded : length q.events ≤ q.max_size
  pub clean : All IsClean q.events
  pub served : (is_nil q.events || is_nil q.next_waiters) ≡ true

pub record CoreOk (a : Agent) : Type 0 where
  pub queue : QueueOk a.event_queue
  pub registry : RegistryOk a.registry

-- `b` has done what `a` had done, and then effects that satisfy `P`.
abbrev pub Said {ℓ} : (Effect → Type ℓ) → Agent → Agent → Type ℓ
Said P a b = (new : List Effect) × (b.trace ≡ new ++ a.trace) × All P new

-- The managers' tables are untouched, `CoreOk` holds, and what was said is quiet.
pub record Frame (a b : Agent) : Type 0 where
  pub keyring : b.keyring_requests ≡ a.keyring_requests
  pub flows : b.flows ≡ a.flows
  pub listener : b.listener ≡ a.listener
  pub subscribers : b.subscribers ≡ a.subscribers
  pub core : CoreOk b
  pub said : Said IsQuiet a b

abbrev pub Step : Agent → Agent → Type 0
Step a b = CoreOk a → Frame a b

pub Step-refl : (a : Agent) → Step a a
Step-refl a h = record {
  keyring = refl;
  flows = refl;
  listener = refl;
  subscribers = refl;
  core = h;
  said = ([], refl, tt);
}

pub Said-trans {ℓ} : (P : Effect → Type ℓ) (a b c : Agent) → Said P a b → Said P b c → Said P a c
Said-trans P a b c (xs, p, h) (ys, q, k) =
    (ys ++ xs, q ∙ ap (◌++◌ ys) p ∙ sym (append_assoc ys xs a.trace), All-append P ys xs k h)

Frame-trans : (a b c : Agent) → Frame a b → Frame b c → Frame a c
Frame-trans a b c s t = record {
  keyring = t.keyring ∙ s.keyring;
  flows = t.flows ∙ s.flows;
  listener = t.listener ∙ s.listener;
  subscribers = t.subscribers ∙ s.subscribers;
  core = t.core;
  said = Said-trans IsQuiet a b c s.said t.said;
}

pub Step-trans : (a b c : Agent) → Step a b → Step b c → Step a c
Step-trans a b c s t h = Frame-trans a b c (s h) (t (s h).core)

pub Step-if : (t : Bool) (a b c : Agent) → Step a b → Step a c → Step a (if t then b else c)
Step-if true a b c h k = h
Step-if false a b c h k = k
