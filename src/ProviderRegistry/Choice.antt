-- ===== src/ProviderRegistry/Choice.antt =====
-- The choice that the loop of recomputeActiveProvider makes among the providers that stay.
use noctalia_unofficial_auth.Base.{
  ◌≤◌, ◌≡◌, ◌≢◌, refl, sym, ap, ◌∙◌, ◌⊎◌, inl, inr, none, some, [], ◌∷◌, arith, ◌==◌,
  comparable_nat, Bool-cases, subst, ==-refl,
}
use noctalia_unofficial_auth.Base.Int.{comparable_int, ◌<ℤ◌, ltb_int_iff}
use noctalia_unofficial_auth.Base.Lists.{All}
use noctalia_unofficial_auth.Base.Table.{Table, lookup, Distinct}
use noctalia_unofficial_auth.EventQueue.{Socket, nullptr}
use noctalia_unofficial_auth.ProviderRegistry.{
  ProviderRegistry, UiProvider, Best, no_best, better, pick,
}

abbrev pub best_of : Best → Table Socket UiProvider → Best
best_of b [] = b
best_of b ((s, p) ∷ m) = best_of (pick b s p) m

-- `p` does not beat the entry whose numbers `b` holds: its priority is lower, or the same with a
-- heartbeat that is no later.
abbrev pub AtMost : UiProvider → Best → Type 0
AtMost p b =
    (p.priority <ℤ b.priority) ⊎ ((p.priority ≡ b.priority) × (p.last_heartbeat_ms ≤ b.heartbeat))

abbrev BestAtMost : Best → Best → Type 0
BestAtMost c b =
    (c.priority <ℤ b.priority) ⊎ ((c.priority ≡ b.priority) × (c.heartbeat ≤ b.heartbeat))

AtMost-trans : (p : UiProvider) (c b : Best) → AtMost p c → BestAtMost c b → AtMost p b
AtMost-trans p c b h k = ground arith

pick-AtMost : (b : Best) (s : Socket) (p : UiProvider) → AtMost p (pick b s p)
unfolding pick better
pick-AtMost b s p = ground (arith, ltb_int_iff b.priority p.priority)

pick-grows :
    (b : Best) (s : Socket) (p : UiProvider) → b.socket ≢ nullptr → BestAtMost b (pick b s p)
unfolding pick better
pick-grows b s p h = ground (arith, ltb_int_iff b.priority p.priority)

pick-nonnull :
    (b : Best) (s : Socket) (p : UiProvider) → s ≢ nullptr → (pick b s p).socket ≢ nullptr
unfolding pick better
pick-nonnull b s p h = ground arith

-- No entry stands under the null pointer.
abbrev pub NonNull : Table Socket UiProvider → Type 0
NonNull = All (λ (entry : Socket × UiProvider). entry.0 ≢ nullptr)

best_of-grows :
    (b : Best) (m : Table Socket UiProvider)
    → b.socket ≢ nullptr
    → NonNull m
    → BestAtMost b (best_of b m)
best_of-grows b [] h n = inr (refl, omega arith)
best_of-grows b ((s, p) ∷ m) h n =
    ground (arith, pick-grows b s p h, best_of-grows (pick b s p) m (pick-nonnull b s p n.0) n.1)

-- Every entry is at most the best.
best_of-AtMost :
    (b : Best) (m : Table Socket UiProvider)
    → NonNull m
    → (s : Socket) (p : UiProvider) → lookup s m ≡ some p
    → AtMost p (best_of b m)
unfolding lookup
best_of-AtMost b [] n s p e = absurd (cc e)
best_of-AtMost b ((t, q) ∷ m) n s p e = elim (Bool-cases (t == s)) [
  | inl here ↦
      AtMost-trans p (pick b t q) (best_of (pick b t q) m)
        (subst (λ x. AtMost x (pick b t q)) (some_inj q p (rw here at e)) (pick-AtMost b t q))
        (best_of-grows (pick b t q) m (pick-nonnull b t q n.0) n.1)
  | inr later ↦ best_of-AtMost (pick b t q) m n.1 s p (rw later at e)
]
  where
    some_inj : (x y : UiProvider) → some x ≡ some y → x ≡ y
    some_inj x y h = cc

-- The numbers of the best are those of an entry, or the loop has replaced nothing.
abbrev IsEntry : Best → Table Socket UiProvider → Type 0
IsEntry b m =
    (p : UiProvider) × (lookup b.socket m ≡ some p)
    × (p.priority ≡ b.priority)
    × (p.last_heartbeat_ms ≡ b.heartbeat)

pick-cases :
    (b : Best) (s : Socket) (p : UiProvider)
    → (pick b s p ≡ b)
      ⊎ (pick b s p ≡ record { socket = s; priority = p.priority; heartbeat = p.last_heartbeat_ms })
unfolding pick
pick-cases b s p = ground arith

IsEntry-later :
    (b : Best) (s : Socket) (p : UiProvider) (m : Table Socket UiProvider)
    → lookup s m ≡ none
    → IsEntry b m
    → IsEntry b ((s, p) ∷ m)
unfolding lookup
IsEntry-later b s p m fresh (q, e, i, j) = (q, ground arith, i, j)

head_entry :
    (s : Socket) (p : UiProvider) (m : Table Socket UiProvider) → lookup s ((s, p) ∷ m) ≡ some p
unfolding lookup
head_entry s p m = rw (==-refl s)

best_of-IsEntry :
    (b : Best) (m : Table Socket UiProvider)
    → Distinct m
    → (best_of b m ≡ b) ⊎ IsEntry (best_of b m) m
best_of-IsEntry b [] d = inl refl
best_of-IsEntry b ((s, p) ∷ m) d = elim (best_of-IsEntry (pick b s p) m d.1) [
  | inr later ↦ inr (IsEntry-later (best_of (pick b s p) m) s p m d.0 later)
  | inl same ↦ elim (pick-cases b s p) [
    | inl kept ↦ inl (same ∙ kept)
    | inr taken ↦
        inr (
          subst (λ x. IsEntry x ((s, p) ∷ m)) (sym (same ∙ taken))
            (p, head_entry s p m, refl, refl))
  ]
]

-- `q` has a lower priority than `p`, or the same and a heartbeat that is no later.
abbrev pub NotAbove : UiProvider → UiProvider → Type 0
NotAbove q p =
    (q.priority <ℤ p.priority)
    ⊎ ((q.priority ≡ p.priority) × (q.last_heartbeat_ms ≤ p.last_heartbeat_ms))

-- The registry has no provider and none is active, or the active one is a registered provider above
-- which there is none.
abbrev pub BestIsActive : ProviderRegistry → Type 0
BestIsActive r =
    ((r.ui_providers ≡ []) × (r.active_provider ≡ nullptr))
    ⊎ ((p : UiProvider) × (lookup r.active_provider r.ui_providers ≡ some p)
        × (r.active_provider ≢ nullptr)
        × ((s : Socket) (q : UiProvider) → lookup s r.ui_providers ≡ some q → NotAbove q p))

best_of-nonnull :
    (b : Best) (m : Table Socket UiProvider)
    → b.socket ≢ nullptr
    → NonNull m
    → (best_of b m).socket ≢ nullptr
best_of-nonnull b [] h n = h
best_of-nonnull b ((s, p) ∷ m) h n = best_of-nonnull (pick b s p) m (pick-nonnull b s p n.0) n.1

pub best_of-active :
    (m : Table Socket UiProvider)
    → Distinct m
    → NonNull m
    → BestIsActive (record { ui_providers = m; active_provider = (best_of no_best m).socket })
best_of-active [] d n = inl (refl, refl)
best_of-active ((s, p) ∷ m) d n =
    let b = best_of no_best ((s, p) ∷ m) in
    let found : b.socket ≢ nullptr =
      best_of-nonnull (pick no_best s p) m (pick-nonnull no_best s p n.0) n.1 in
    elim (best_of-IsEntry no_best ((s, p) ∷ m) d) [
      | inl same ↦ absurd (found (ap (λ (x : Best). x.socket) same))
      | inr (q, e, i, j) ↦
          inr (
            q,
            e,
            found,
            λ t x h. ground (arith, i, j, best_of-AtMost no_best ((s, p) ∷ m) n t x h),
          )
    ]
