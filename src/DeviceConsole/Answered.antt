-- ===== src/DeviceConsole/Answered.antt =====
-- When a command goes out
-- (apps/console/components/device-console.tsx, `useDeviceCommands`).
use vodoge_cloud.Prelude.{
  ◌≡◌, ◌≢◌, refl, sym, ap, ◌∙◌, subst, ◌⊎◌, inl, inr, Option, none, some, List, [], ◌∷◌, arith,
}
use vodoge_cloud.Text.{Text}
use vodoge_cloud.Json.{Json, Props}
use vodoge_cloud.DeviceConsole.{
  Pending, Command, Event, requested, proceeded, cancelled, settled, polled, Machine, Refresh,
  Reply, broken, unread, rows, refreshed, threw, refused, accepted, confirmation_title,
  consequence_of, request, proceed, settle, step, after,
}

module _ (show : Json → Text) where
  -- The last question that was raised is about this command to the selected `asked`, and nobody has
  -- answered it yet.
  unfoldable pub IsAwaited : Text → Text → Props → List Event → Type 0
  IsAwaited asked kind extra [] = ⊥
  IsAwaited asked kind extra (requested imei k x ∷ events) =
      ((consequence_of show imei k x ≢ none) × (imei ≡ asked) × (k ≡ kind) × (x ≡ extra))
      ⊎ ((consequence_of show imei k x ≡ none) × IsAwaited asked kind extra events)
  IsAwaited asked kind extra (proceeded imei ∷ events) = ⊥
  IsAwaited asked kind extra (cancelled ∷ events) = ⊥
  IsAwaited asked kind extra (settled k reply ∷ events) = IsAwaited asked kind extra events
  IsAwaited asked kind extra (polled refresh ∷ events) = IsAwaited asked kind extra events

-- The event asks for a command, or answers a question, while this selected is selected.
abbrev pub IsOf : Text → Event → Type 0
IsOf selected (requested imei k x) = imei ≡ selected
IsOf selected (proceeded imei) = imei ≡ selected
IsOf selected cancelled = Unit
IsOf selected (settled k reply) = Unit
IsOf selected (polled refresh) = Unit

refreshed-pending : (refresh : Refresh) (m : Machine) → (refreshed refresh m).pending ≡ m.pending
refreshed-pending broken m = refl
refreshed-pending unread m = refl
refreshed-pending (rows commands) m = refl

settle-pending :
    (failed : Text) (reply : Reply) (m : Machine) → (settle failed reply m).pending ≡ m.pending
unfolding settle
settle-pending failed threw m = refl
settle-pending failed (refused text) m = refl
settle-pending failed (accepted broken) m = refl
settle-pending failed (accepted unread) m = refl
settle-pending failed (accepted (rows commands)) m = refl

module _ (show : Json → Text) (labels : Text → Option Text) (failed : Text) where
  request_kept :
      (o : Option Text) (imei k : Text) (x : Props) (m : Machine) (p : Pending)
      → (request show labels failed o imei k x m).0.pending ≡ some p
      → ((o ≢ none) × (k ≡ p.kind) × (x ≡ p.extra)) ⊎ ((o ≡ none) × (m.pending ≡ some p))
  unfolding request
  request_kept none imei k x m p e = inr (refl, e)
  request_kept (some c) imei k x m p e =
      let q : Pending = record {
        kind = k;
        extra = x;
        consequence = c;
        title = confirmation_title show labels k x imei;
      } in
      let same : q ≡ p = ground arith in
      inl (
        λ never. absurd (ground arith),
        ap (λ (r : Pending). r.kind) same,
        ap (λ (r : Pending). r.extra) same,
      )

  proceed_done :
      (o : Option Pending) (imei : Text) (m : Machine)
      → m.pending ≡ o
      → (proceed show labels failed o imei m).0.pending ≡ none
  unfolding proceed
  proceed_done none imei m e = e
  proceed_done (some p) imei m e = refl

  pending_kept :
      (events : List Event) (p : Pending)
      → (after show labels failed events).pending ≡ some p
      → (asked : Text) × IsAwaited show asked p.kind p.extra events
  unfolding after step IsAwaited
  pending_kept [] p e = absurd (ground arith)
  pending_kept (requested imei k x ∷ events) p e =
      elim (request_kept (consequence_of show imei k x) imei k x (after show labels failed events) p
        e) [
          | inl (asks, kind, extra) ↦ (imei, inl (asks, refl, kind, extra))
          | inr (free, before) ↦
              let (asked, waits) = pending_kept events p before in (asked, inr (free, waits))
        ]
  pending_kept (proceeded imei ∷ events) p e =
      let m = after show labels failed events in
      let done = proceed_done m.pending imei m refl in absurd (ground arith)
  pending_kept (cancelled ∷ events) p e = absurd (ground arith)
  pending_kept (settled k reply ∷ events) p e =
      pending_kept events p
        (sym (settle-pending failed reply (after show labels failed events)) ∙ e)
  pending_kept (polled refresh ∷ events) p e =
      pending_kept events p (sym (refreshed-pending refresh (after show labels failed events)) ∙ e)

  -- The command needs no question, or somebody has just answered the last one, which was about its kind
  -- and its fields, for the module that was selected then; the command is for the one selected now.
  abbrev pub IsAnswered : Event → List Event → Command → Type 0
  IsAnswered event events c =
      (consequence_of show c.imei c.kind c.extra ≡ none)
      ⊎ ((event ≡ proceeded c.imei) × ((asked : Text) × IsAwaited show asked c.kind c.extra events))

  request-IsFree :
      (o : Option Text) (imei k : Text) (x : Props) (m : Machine) (c : Command)
      → (request show labels failed o imei k x m).1 ≡ some c
      → (o ≡ none) × (record { imei = imei; kind = k; extra = x } ≡ c)
  unfolding request
  request-IsFree none imei k x m c e = (refl, ground arith)
  request-IsFree (some q) imei k x m c e = absurd (ground arith)

  proceed-IsAwaited :
      (o : Option Pending) (imei : Text) (m : Machine) (c : Command)
      → (proceed show labels failed o imei m).1 ≡ some c
      → (p : Pending) × (o ≡ some p) × (record { imei = imei; kind = p.kind; extra = p.extra } ≡ c)
  unfolding proceed
  proceed-IsAwaited none imei m c e = absurd (ground arith)
  proceed-IsAwaited (some p) imei m c e = (p, refl, ground arith)

  -- Whatever happened before, a command goes out on an event only where the guards ask nothing about it,
  -- or where the event is the answer to the last question, that question was about a command of this kind
  -- with these fields, and nobody had answered or dropped it before. The question may have been about
  -- another module than the one that the command goes to, which is the one selected at the answer.
  pub step-IsAnswered :
      (event : Event) (events : List Event) (c : Command)
      → (step show labels failed event (after show labels failed events)).1 ≡ some c
      → IsAnswered event events c
  unfolding step
  step-IsAnswered (requested imei k x) events c e =
      let (free, same) =
        request-IsFree (consequence_of show imei k x) imei k x (after show labels failed events) c
          e in
      inl (subst (λ (d : Command). consequence_of show d.imei d.kind d.extra ≡ none) same free)
  step-IsAnswered (proceeded imei) events c e =
      let m = after show labels failed events in
      let (p, waiting, same) = proceed-IsAwaited m.pending imei m c e in
      inr (
        subst
          (λ (d : Command).
            (proceeded imei ≡ proceeded d.imei)
            × ((asked : Text) × IsAwaited show asked d.kind d.extra events))
          same (refl, pending_kept events p waiting))
  step-IsAnswered cancelled events c e = absurd (ground arith)
  step-IsAnswered (settled k reply) events c e = absurd (ground arith)
  step-IsAnswered (polled refresh) events c e = absurd (ground arith)
