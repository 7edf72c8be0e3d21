-- ===== src/EventQueue.antt =====
-- core/agent/EventQueue.hpp and EventQueue.cpp: the bounded queue of events and the sockets that
-- wait for the next one.
pub mod Bounds
pub mod Drain
use noctalia_unofficial_auth.Base.{
  ℕ, ◌≤◌, Bool, true, false, not, List, [], ◌∷◌, ◌++◌, leb, ◌==◌, if◌then◌else◌, comparable_nat,
}
use noctalia_unofficial_auth.Base.Lists.{length, drop, remove_all}
use noctalia_unofficial_auth.Json.{JsonObject, empty}

-- A socket pointer; 0 is nullptr.
abbrev pub Socket : Type 0
Socket = ℕ

abbrev pub nullptr : Socket
nullptr = 0

pub record EventQueue : Type 0 where
  pub max_size : ℕ
  pub events : List JsonObject
  pub next_waiters : List Socket

abbrev pub new_queue : ℕ → EventQueue
new_queue n = record { max_size = n; events = []; next_waiters = [] }

abbrev pub is_nil {ℓ} : {A : Type ℓ} → List A → Bool
is_nil [] = true
is_nil (x ∷ xs) = false

unfoldable pub is_empty : EventQueue → Bool
is_empty q = is_nil q.events

unfoldable pub has_events : EventQueue → Bool
has_events q = not (is_nil q.events)

abbrev pub first_event : List JsonObject → JsonObject
first_event [] = empty
first_event (e ∷ es) = e

-- takeNext(): the oldest event, or an empty object.
unfoldable pub take_next : EventQueue → JsonObject × EventQueue
take_next q = (first_event q.events, record q { events = drop 1 q.events })

unfoldable pub enqueue : JsonObject → EventQueue → EventQueue
enqueue e q =
    let kept = if leb q.max_size (length q.events) then drop 1 q.events else q.events in
    record q { events = kept ++ e ∷ [] }

unfoldable pub subscribe_next : Socket → EventQueue → EventQueue
subscribe_next s q = record q { next_waiters = q.next_waiters ++ s ∷ [] }

unfoldable pub remove_waiter : Socket → EventQueue → EventQueue
remove_waiter s q = record q { next_waiters = remove_all s q.next_waiters }

-- The loop of drainToWaiters over what is left of both lists; `send` acts on the state of the rest.
unfoldable pub drain {ℓ} :
    {S : Type ℓ}
    → (Socket → JsonObject → S → S)
    → List Socket
    → List JsonObject
    → S
    → List Socket × List JsonObject × S
drain send [] es s = ([], es, s)
drain send (w ∷ ws) [] s = (w ∷ ws, [], s)
drain send (w ∷ ws) (e ∷ es) s = drain send ws es (send w e s)

unfoldable pub drain_to_waiters {ℓ} :
    {S : Type ℓ} → (Socket → JsonObject → S → S) → EventQueue → S → EventQueue × S
drain_to_waiters send q s =
    let (ws, es, t) = drain send q.next_waiters q.events s in
    (record q { next_waiters = ws; events = es }, t)
