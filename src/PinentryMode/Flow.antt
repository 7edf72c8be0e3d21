-- ===== src/PinentryMode/Flow.antt =====
-- The flow that a run of the pinentry has open, and the ledger of what it sent.
use noctalia_unofficial_auth.Base.{
  ℕ, suc, ◌≤◌, String, Bool, true, false, List, ◌∷◌, ◌==◌, ◌≡◌, ◌≢◌, refl, if◌then◌else◌,
  comparable_nat, comparable_string, arith, Bool-cases, inl, inr, sym, subst, ◌∙◌, eq_of_==,
}
use mathlib.Core.Bool.{false≢true}
use noctalia_unofficial_auth.Json.{JsonObject}
use noctalia_unofficial_auth.PinentryMode.{
  World, PinentrySession, reset_flow, terminal_result, has_result, ensure_flow_cookie,
  report_terminal_result,
}
use noctalia_unofficial_auth.PinentryMode.Ledger.{
  endings, is_owed, IsRequest, endings-request, is_owed-request, endings-result, is_owed-result,
}

-- Identifiers not made yet stand nowhere; the open flow has not been ended; no flow was ended twice;
-- only the open flow is owed a result, and then the session knows it.
pub record Flows (w : World) (cookie : String) (awaiting : Bool) (made : ℕ) (sent : List JsonObject)
    : Type 0 where
  pub fresh : (n : ℕ) → made ≤ n → (endings (w.uuid n) sent ≡ 0) × (cookie ≢ w.uuid n)
  pub running : cookie ≢ "" → endings cookie sent ≡ 0
  pub once : (c : String) → endings c sent ≤ 1
  pub owed : (c : String) → is_owed w.reply c sent ≡ true → (awaiting ≡ true) × (cookie ≡ c)
  pub named : awaiting ≡ true → cookie ≢ ""

abbrev pub FlowOk : World → PinentrySession → Type 0
FlowOk w s = Flows w s.flow_cookie s.awaiting_terminal_result s.made s.sent

-- createUuid gives a text, and never the same twice.
pub record AreUnique (uuid : ℕ → String) : Type 0 where
  pub some_text : (n : ℕ) → uuid n ≢ ""
  pub distinct : (m n : ℕ) → uuid m ≡ uuid n → m ≡ n

pub ne_of : (a b : String) → (a == b) ≡ false → a ≢ b
ne_of a b h e = ground (arith, comparable_string.same_iff a b)

module _ (w : World) (unique : AreUnique w.uuid) where
  new_flow-Flows :
      (awaiting : Bool) (made : ℕ) (sent : List JsonObject)
      → Flows w "" awaiting made sent
      → Flows w (w.uuid made) awaiting (suc made) sent
  new_flow-Flows awaiting made sent h = record {
    fresh = λ n le. ((h.fresh n (omega arith)).0, λ e. ground (arith, unique.distinct made n e));
    running = λ ne. (h.fresh made (omega arith)).0;
    once = h.once;
    owed = λ c o. absurd (h.named (h.owed c o).0 refl);
    named = λ e. absurd (h.named e refl);
  }

  pub ensure_flow_cookie-FlowOk :
      (s : PinentrySession)
      → FlowOk w s
      → FlowOk w (ensure_flow_cookie w s) × ((ensure_flow_cookie w s).flow_cookie ≢ "")
  unfolding ensure_flow_cookie
  ensure_flow_cookie-FlowOk s h = elim (Bool-cases (s.flow_cookie == "")) [
    | inl e ↦
        let none : s.flow_cookie ≡ "" = eq_of_== s.flow_cookie "" e in
        rw e (
          new_flow-Flows s.awaiting_terminal_result s.made s.sent
              (subst (λ c. Flows w c s.awaiting_terminal_result s.made s.sent) none h),
          unique.some_text s.made,
        )
    | inr e ↦ rw e (h, ne_of s.flow_cookie "" e)
  ]

  -- The flow is over.
  closed-Flows :
      (made : ℕ) (sent : List JsonObject)
      → ((n : ℕ) → made ≤ n → endings (w.uuid n) sent ≡ 0)
      → ((c : String) → endings c sent ≤ 1)
      → ((c : String) → is_owed w.reply c sent ≡ false)
      → Flows w "" false made sent
  closed-Flows made sent f o n = record {
    fresh = λ n le. (f n le, λ e. unique.some_text n (sym e));
    running = λ ne. absurd (ne refl);
    once = o;
    owed = λ c o. absurd (false≢true (sym (n c) ∙ o));
    named = λ e. absurd (false≢true e);
  }

  -- A request about the open flow, with what the session makes of the answer.
  pub request-FlowOk :
      (wanted : String) (request : JsonObject) (s : PinentrySession)
      → FlowOk w s
      → s.flow_cookie ≢ ""
      → IsRequest s.flow_cookie wanted request
      → let t = record s { sent = request ∷ s.sent } in
        FlowOk w (
          if has_result wanted (w.reply (request ∷ s.sent))
          then record t { awaiting_terminal_result = true }
          else reset_flow t)
  request-FlowOk wanted request s h ne is =
      let cookie = s.flow_cookie in
      let count : (c : String) → endings c (request ∷ s.sent) ≡ endings c s.sent =
        λ c. endings-request w.reply c s.sent cookie wanted request is in
      let owes = λ (c : String). is_owed-request w.reply c s.sent cookie wanted request is in
      elim (Bool-cases (has_result wanted (w.reply (request ∷ s.sent)))) [
        | inl e ↦ rw e (record {
          fresh = λ n le. rw (count (w.uuid n)) (h.fresh n le);
          running = λ k. rw (count cookie) (h.running k);
          once = λ c. rw (count c) (h.once c);
          owed = λ c o. (
            refl,
            elim (Bool-cases (cookie == c)) [
              | inl same ↦ eq_of_== cookie c same
              | inr other ↦ (h.owed c (ground (arith, owes c))).1
            ],
          );
          named = λ t. ne;
        })
        | inr e ↦ rw e (
            closed-Flows s.made (request ∷ s.sent) (λ n le. rw (count (w.uuid n)) (h.fresh n le).0)
              (λ c. rw (count c) (h.once c))
              (λ c. ground (arith, owes c, h.owed c, comparable_string.same_iff cookie c)))
      ]

  -- A result about the open flow that ends it, or that is to be tried again.
  pub report_terminal_result-FlowOk :
      (result error : String) (s : PinentrySession)
      → FlowOk w s
      → FlowOk w (report_terminal_result w result error s)
  unfolding report_terminal_result
  report_terminal_result-FlowOk result error s h =
      let cookie = s.flow_cookie in
      let count = λ (c : String). endings-result w.reply c s.sent cookie result error in
      let owes = λ (c : String). is_owed-result w.reply c s.sent cookie result error in
      let nothing : (c : String)
          → is_owed w.reply c (terminal_result cookie result error ∷ s.sent) ≡ false =
        λ c. ground (arith, owes c, h.owed c, comparable_string.same_iff cookie c) in
      elim (Bool-cases (cookie == "")) [
        | inl e ↦ rw e h
        | inr e ↦ elim (Bool-cases (result == "retry")) [
          | inl again ↦
              rw (e, again)
                (record {
                  fresh =
                      λ n le. (ground (arith, count (w.uuid n), h.fresh n le), (h.fresh n le).1);
                  running = λ k. ground (arith, count cookie, h.running k);
                  once = λ c. ground (arith, count c, h.once c);
                  owed = λ c o. absurd (false≢true (sym (nothing c) ∙ o));
                  named = λ t. absurd (false≢true t);
                })
          | inr last ↦
              rw (e, last)
                (closed-Flows s.made (terminal_result cookie result error ∷ s.sent)
                  (λ n le. ground (
                    arith,
                    count (w.uuid n),
                    h.fresh n le,
                    comparable_string.same_iff cookie (w.uuid n),
                  ))
                  (λ c. ground (
                    arith,
                    count c,
                    h.once c,
                    h.running (ne_of cookie "" e),
                    comparable_string.same_iff cookie c,
                  ))
                  nothing)
        ]
      ]
