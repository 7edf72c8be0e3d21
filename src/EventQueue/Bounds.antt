-- ===== src/EventQueue/Bounds.antt =====
-- What a queue of events holds.
use noctalia_unofficial_auth.Base.{
  ℕ, zero, suc, ◌+◌, ◌-◌, ◌≤◌, ◌<◌, ◌≡◌, refl, ap, sym, ◌∙◌, List, [], ◌∷◌, ◌++◌, inl, inr, arith,
  leb, Bool-cases, append_assoc, append-nil,
}
use noctalia_unofficial_auth.Base.Lists.{length, drop, length-append, length-drop, drop-append}
use noctalia_unofficial_auth.Json.{JsonObject}
use noctalia_unofficial_auth.EventQueue.{EventQueue, enqueue, new_queue}

-- Any event may be added: the number of events never passes the capacity.
pub enqueue_bounded :
    (e : JsonObject) (q : EventQueue)
    → 0 < q.max_size
    → length q.events ≤ q.max_size
    → length (enqueue e q).events ≤ q.max_size
unfolding enqueue
enqueue_bounded e q room h = ground (
  arith,
  length-append q.events (e ∷ []),
  length-append (drop 1 q.events) (e ∷ []),
  length-drop 1 q.events,
)

-- The newest `n` elements.
abbrev pub newest : ℕ → List JsonObject → List JsonObject
newest n es = drop (length es - n) es

abbrev pub enqueue_all : List JsonObject → EventQueue → EventQueue
enqueue_all [] q = q
enqueue_all (e ∷ es) q = enqueue_all es (enqueue e q)

drop-eq : {m n : ℕ} (es : List JsonObject) → m ≡ n → drop m es ≡ drop n es
drop-eq es = ap (λ k. drop k es)

drop-nil : (n : ℕ) → drop {A = JsonObject} n [] ≡ []
drop-nil zero = refl
drop-nil (suc n) = refl

drop-drop : (m n : ℕ) (es : List JsonObject) → drop m (drop n es) ≡ drop (n + m) es
drop-drop m zero es = drop-eq es (omega arith)
drop-drop m (suc n) [] = drop-nil m ∙ sym (drop-nil (suc n + m))
drop-drop m (suc n) (x ∷ es) =
    drop-drop m n es ∙ drop-eq {m = suc (n + m)} {n = suc n + m} (x ∷ es) (omega arith)

length-snoc : (es : List JsonObject) (e : JsonObject) → length (es ++ e ∷ []) ≡ suc (length es)
length-snoc es e = omega (arith, length-append es (e ∷ []))

-- One more event after any history: the queue that held the newest events still does.
enqueue-newest :
    (n : ℕ) (history : List JsonObject) (e : JsonObject) (q : EventQueue)
    → 0 < n
    → q.max_size ≡ n
    → q.events ≡ newest n history
    → (enqueue e q).events ≡ newest n (history ++ e ∷ [])
unfolding enqueue
enqueue-newest n history e q room m h = elim (Bool-cases (leb n (length (newest n history)))) [
  | inl full ↦
      rw (m, h, full)
        (ap (λ (l : List JsonObject). l ++ e ∷ []) (drop-drop 1 (length history - n) history)
          ∙ sym (drop-append (length history - n + 1) history (e ∷ []) (ground (arith, fits)))
          ∙ drop-eq (history ++ e ∷ []) (ground (arith, fits, length-snoc history e)))
  | inr spare ↦
      rw (m, h, spare)
        (sym (drop-append (length history - n) history (e ∷ []) (ground (arith, fits)))
          ∙ drop-eq (history ++ e ∷ []) (ground (arith, fits, length-snoc history e)))
]
  where
    fits : length (newest n history) ≡ length history - (length history - n)
    fits = length-drop (length history - n) history

pub max_size-enqueue : (e : JsonObject) (q : EventQueue) → (enqueue e q).max_size ≡ q.max_size
unfolding enqueue
max_size-enqueue e q = refl

-- A queue that holds the newest events of a history holds, after more events, the newest of all.
enqueue_all-newest_from :
    (n : ℕ) (es history : List JsonObject) (q : EventQueue)
    → 0 < n
    → q.max_size ≡ n
    → q.events ≡ newest n history
    → (enqueue_all es q).events ≡ newest n (history ++ es)
enqueue_all-newest_from n [] history q room m h = rw append-nil h
enqueue_all-newest_from n (e ∷ es) history q room m h =
    enqueue_all-newest_from n es (history ++ e ∷ []) (enqueue e q) room (max_size-enqueue e q ∙ m)
      (enqueue-newest n history e q room m h)
    ∙ ap (newest n) (append_assoc history (e ∷ []) es)

-- After any sequence of events, a queue of positive capacity holds exactly the newest ones up to
-- its capacity, oldest first: an event is lost only when it is the oldest of a full queue.
pub enqueue_all-newest :
    (n : ℕ) (es : List JsonObject) → 0 < n → (enqueue_all es (new_queue n)).events ≡ newest n es
enqueue_all-newest n es room =
    enqueue_all-newest_from n es [] (new_queue n) room refl (sym (drop-nil (0 - n)))
