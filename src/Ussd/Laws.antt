-- ===== src/Ussd/Laws.antt =====
-- When a USSD session may be continued (apps/console/lib/catalog.ts, `ussdSessionAgeMs` to
-- `ussdContinueRequest`).
use vodoge_cloud.Prelude.{
  ◌≡◌, refl, sym, ap, ◌∙◌, ◌↔◌, true, false, Option, none, some, arith, subst,
}
use vodoge_cloud.Prelude.Int.{ℤ, pos, ◌-ℤ◌, ◌≤ℤ◌}
use vodoge_cloud.Text.{Text, units, is_empty, trim}
use vodoge_cloud.Text.Laws.{text_eq_iff}
use vodoge_cloud.Ussd.{
  UssdResult, UssdExchange, open_session, continue, is_missing, expects_more, is_stale, max_ℤ,
  since, larger, ussd_session_age_ms, ussd_session_state, reply_to, imei_of, ussd_continue_request,
}

is_stale_iff :
    (age : Option ℤ) (ttl : ℤ)
    → (is_stale age ttl ≡ false) ↔ ((a : ℤ) × (age ≡ some a) × (a ≤ℤ ttl))
unfolding is_stale
is_stale_iff none ttl = (λ e. absurd (ground arith), λ (a, e, h). absurd (ground arith))
is_stale_iff (some age) ttl = (λ e. (age, refl, ground arith), λ (a, e, h). ground arith)

is_missing_iff :
    (name : Option Text)
    → (is_missing name ≡ false) ↔ ((s : Text) × (name ≡ some s) × (is_empty s ≡ false))
unfolding is_missing
is_missing_iff none = (λ e. absurd (ground arith), λ (a, e, h). absurd (ground arith))
is_missing_iff (some s) = (λ e. (s, refl, e), λ (a, e, h). ground arith)

expects_more_iff :
    (answer : Option UssdResult)
    → (expects_more answer ≡ true)
      ↔ ((r : UssdResult) × (answer ≡ some r) × (r.expects_reply ≡ true))
unfolding expects_more
expects_more_iff none = (λ e. absurd (ground arith), λ (a, e, h). absurd (ground arith))
expects_more_iff (some r) = (λ e. (r, refl, e), λ (a, e, h). ap (λ o. expects_more o) e ∙ h)

-- The session is offered for a follow-up exactly when the exchange's answer expects a reply, its
-- command succeeded, it names a modem, and its age is known and within the limit.
pub ussd_session_state-open_iff :
    (exchange : Option UssdExchange) (age : Option ℤ) (ttl : ℤ)
    → (ussd_session_state exchange age ttl ≡ open_session) ↔ (
        (x : UssdExchange) × (exchange ≡ some x)
        × ((r : UssdResult) × (x.result ≡ some r) × (r.expects_reply ≡ true))
        × ((imei : Text) × (x.modem_imei ≡ some imei) × (is_empty imei ≡ false))
        × (x.status ≡ units "succeeded")
        × ((a : ℤ) × (age ≡ some a) × (a ≤ℤ ttl)))
unfolding ussd_session_state
ussd_session_state-open_iff none age ttl =
    (λ e. absurd (ground arith), λ (x, e, replies, named, done, young). absurd (ground arith))
ussd_session_state-open_iff (some x) age ttl = (
  λ e. (
    x,
    refl,
    (expects_more_iff x.result).0 (ground arith),
    (is_missing_iff x.modem_imei).0 (ground arith),
    (text_eq_iff x.status (units "succeeded")).0 (ground arith),
    (is_stale_iff age ttl).0 (ground arith),
  ),
  λ (y, e, replies, named, done, young).
      let same : y ≡ x = ground arith in
      rw
        (
          (expects_more_iff x.result).1 (
              subst (λ z. (r : UssdResult) × (z.result ≡ some r) × (r.expects_reply ≡ true)) same
                replies),
          (is_missing_iff x.modem_imei).1 (
              subst (λ z. (imei : Text) × (z.modem_imei ≡ some imei) × (is_empty imei ≡ false)) same
                named),
          (text_eq_iff x.status (units "succeeded")).1
              (subst (λ z. z.status ≡ units "succeeded") same done),
          (is_stale_iff age ttl).1 young,
        )
        refl,
)

max_ℤ-bound : (a b c : ℤ) → max_ℤ a b ≤ℤ c → (a ≤ℤ c) × (b ≤ℤ c)
unfolding max_ℤ
max_ℤ-bound a b c h = ground arith

le_of_eq : {a b : ℤ} (c : ℤ) → some a ≡ some b → b ≤ℤ c → a ≤ℤ c
le_of_eq {a} {b} c e h = let same : a ≡ b = ground arith in subst (λ z. z ≤ℤ c) (sym same) h

larger-bound :
    (g p : Option ℤ) (a c : ℤ)
    → larger g p ≡ some a
    → a ≤ℤ c
    → ((x : ℤ) → g ≡ some x → x ≤ℤ c) × ((x : ℤ) → p ≡ some x → x ≤ℤ c)
larger-bound none none a c e h = absurd (ground arith)
larger-bound none (some y) a c e h =
    let (_, right) = max_ℤ-bound (pos 0) y c (le_of_eq c e h) in
    (λ x q. absurd (ground arith), λ x q. le_of_eq c (sym q) right)
larger-bound (some y) none a c e h =
    let (left, _) = max_ℤ-bound y (pos 0) c (le_of_eq c e h) in
    (λ x q. le_of_eq c (sym q) left, λ x q. absurd (ground arith))
larger-bound (some y) (some z) a c e h =
    let (left, right) = max_ℤ-bound y z c (le_of_eq c e h) in
    (λ x q. le_of_eq c (sym q) left, λ x q. le_of_eq c (sym q) right)

since-some : (now at : ℤ) (o : Option ℤ) → o ≡ some at → since now o ≡ some (now -ℤ at)
since-some now at o e = ap (λ o. since now o) e

-- A session is offered for a follow-up only while it is young by both clocks: the gateway's, where the
-- command's completion is recorded, and the page's, where it has seen the reply.
pub ussd_session_state-young :
    (x : UssdExchange) (observed_at : Option ℤ) (now ttl : ℤ)
    → ussd_session_state (some x) (ussd_session_age_ms (some x) observed_at now) ttl ≡ open_session
    → ((at : ℤ) → x.completed_at ≡ some at → (now -ℤ at) ≤ℤ ttl)
      × ((at : ℤ) → observed_at ≡ some at → (now -ℤ at) ≤ℤ ttl)
unfolding ussd_session_age_ms
ussd_session_state-young x observed_at now ttl e =
    let age = ussd_session_age_ms (some x) observed_at now in
    let (y, same, replies, named, done, (a, known, young)) =
      (ussd_session_state-open_iff (some x) age ttl).0 e in
    let (by_gateway, by_page) =
      larger-bound (since now x.completed_at) (since now observed_at) a ttl known young in
    (
      λ at q. by_gateway (now -ℤ at) (since-some now at x.completed_at q),
      λ at q. by_page (now -ℤ at) (since-some now at observed_at q),
    )

-- While a session is open, a reply that is not blank goes out, trimmed, as a continuation to the modem
-- of the exchange and to no other.
pub ussd_continue_request-open :
    (exchange : Option UssdExchange) (age : Option ℤ) (ttl : ℤ) (reply : Text)
    → ussd_session_state exchange age ttl ≡ open_session
    → is_empty (trim reply) ≡ false
    → (imei : Text) × (imei_of exchange ≡ some imei)
      × (ussd_continue_request exchange reply
          ≡ some (record { modem_imei = imei; code = trim reply; stage = continue }))
unfolding ussd_continue_request reply_to
ussd_continue_request-open exchange age ttl reply e said =
    let (x, same, replies, (imei, named, there), done, young) =
      (ussd_session_state-open_iff exchange age ttl).0 e in
    let known : imei_of exchange ≡ some imei = ap (λ o. imei_of o) same ∙ named in
    (imei, known, rw (known, reply_to, there, said) refl)
