-- ===== src/EventQueue/Drain.antt =====
-- drainToWaiters: which waiter gets which event.
use noctalia_unofficial_auth.Base.{◌≡◌, refl, true, ◌||◌, List, [], ◌∷◌, comparable_nat}
use noctalia_unofficial_auth.Base.Lists.{length, drop}
use noctalia_unofficial_auth.Json.{JsonObject}
use noctalia_unofficial_auth.EventQueue.{EventQueue, Socket, is_nil, drain, drain_to_waiters}

-- The n-th waiter with the n-th event, as far as both lists reach.
abbrev pub pairs : List Socket → List JsonObject → List (Socket × JsonObject)
pairs [] es = []
pairs (w ∷ ws) [] = []
pairs (w ∷ ws) (e ∷ es) = (w, e) ∷ pairs ws es

pub drop_either :
    (ws : List Socket) (es : List JsonObject)
    → (is_nil (drop (length ws) es) || is_nil (drop (length es) ws)) ≡ true
drop_either [] [] = refl
drop_either [] (e ∷ es) = refl
drop_either (w ∷ ws) [] = refl
drop_either (w ∷ ws) (e ∷ es) = drop_either ws es

module _ {ℓ} {S : Type ℓ} (send : Socket → JsonObject → S → S) where
  abbrev pub send_all : List (Socket × JsonObject) → S → S
  send_all [] s = s
  send_all ((w, e) ∷ l) s = send_all l (send w e s)

  drain_lem :
      (ws : List Socket) (es : List JsonObject) (s : S)
      → drain send ws es s ≡ (drop (length es) ws, drop (length ws) es, send_all (pairs ws es) s)
  unfolding drain
  drain_lem [] [] s = refl
  drain_lem [] (e ∷ es) s = refl
  drain_lem (w ∷ ws) [] s = refl
  drain_lem (w ∷ ws) (e ∷ es) s = drain_lem ws es (send w e s)

  -- drainToWaiters sends the n-th event to the n-th waiter, in order, as far as both lists reach;
  -- it keeps the rest of both lists, and one of the two rests is empty.
  pub drain_to_waiters-pairs :
      (q : EventQueue) (s : S)
      → (drain_to_waiters send q s ≡ (
        record q {
          events = drop (length q.next_waiters) q.events;
          next_waiters = drop (length q.events) q.next_waiters;
        },
        send_all (pairs q.next_waiters q.events) s,
      ))
        × ((is_nil (drop (length q.next_waiters) q.events)
              || is_nil (drop (length q.events) q.next_waiters))
            ≡ true)
  unfolding drain_to_waiters
  drain_to_waiters-pairs q s =
      (rw (drain_lem q.next_waiters q.events s), drop_either q.next_waiters q.events)
