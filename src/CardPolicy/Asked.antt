-- ===== src/CardPolicy/Asked.antt =====
-- When an edit of a policy goes out (apps/console/components/card-policies.tsx).
use vodoge_cloud.Prelude.{◌≡◌, refl, ap, ◌∙◌, true, false, Option, none, some, List, [], ◌∷◌}
use vodoge_cloud.Text.{Text}
use vodoge_cloud.Catalog.Enrollment.{CardPolicyRow}
use vodoge_cloud.CardPolicy.{
  CardPolicyEdit, CardPolicyGuard, card_policy_guard_for, card_policy_patch, request_of,
  PolicyRequest, Pending, Reply, threw, refused, accepted, Event, proposed, confirmed, dropped,
  answered, Machine, propose, confirm, answer, step, after,
}

-- An edit that needs a dialog, or else what was open before.
abbrev opened :
    Option CardPolicyGuard
    → Text
    → CardPolicyEdit
    → Option (Text × CardPolicyEdit)
    → Option (Text × CardPolicyEdit)
opened none iccid change before = before
opened (some guard) iccid change before = some (iccid, change)

-- The last edit that was proposed and needs a dialog, while nobody has confirmed or dropped it.
unfoldable pub open_edit : List Event → Option (Text × CardPolicyEdit)
open_edit [] = none
open_edit (proposed iccid change ∷ events) =
    opened (card_policy_guard_for change) iccid change (open_edit events)
open_edit (confirmed policies ∷ events) = none
open_edit (dropped ∷ events) = none
open_edit (answered reply ∷ events) = open_edit events

abbrev edit_of : Option Pending → Option (Text × CardPolicyEdit)
edit_of none = none
edit_of (some p) = some (p.iccid, p.change)

answer-pending :
    (failed : Text) (reply : Reply) (m : Machine) → (answer failed reply m).pending ≡ m.pending
unfolding answer
answer-pending failed threw m = refl
answer-pending failed (refused text) m = refl
answer-pending failed accepted m = refl

abbrev sent_for : Option (Text × CardPolicyEdit) → List CardPolicyRow → Option PolicyRequest
sent_for none policies = none
sent_for (some (iccid, change)) policies =
    some (request_of (card_policy_patch change) iccid policies)

-- What goes out on an event after others, for an account that may write.
abbrev pub expected : Event → List Event → Option PolicyRequest
expected (confirmed policies) events = sent_for (open_edit events) policies
expected _ events = none

propose-opened :
    (guard : Option CardPolicyGuard) (iccid : Text) (change : CardPolicyEdit) (m : Machine)
    → edit_of (propose guard iccid change m).pending ≡ opened guard iccid change (edit_of m.pending)
unfolding propose
propose-opened none iccid change m = refl
propose-opened (some guard) iccid change m = refl

confirm-pending :
    (p : Option Pending) (policies : List CardPolicyRow) (m : Machine)
    → m.pending ≡ p
    → edit_of (confirm p policies m).0.pending ≡ none
unfolding confirm
confirm-pending none policies m e = ap edit_of e
confirm-pending (some p) policies m e = refl

confirm-sent_for :
    (p : Option Pending) (policies : List CardPolicyRow) (m : Machine)
    → (confirm p policies m).1 ≡ sent_for (edit_of p) policies
unfolding confirm
confirm-sent_for none policies m = refl
confirm-sent_for (some p) policies m = refl

module _ (failed : Text) where
  after-open_edit :
      (events : List Event) → edit_of (after true failed events).pending ≡ open_edit events
  unfolding after step open_edit
  after-open_edit [] = refl
  after-open_edit (proposed iccid change ∷ events) =
      propose-opened (card_policy_guard_for change) iccid change (after true failed events)
      ∙ ap (opened (card_policy_guard_for change) iccid change) (after-open_edit events)
  after-open_edit (confirmed policies ∷ events) =
      let m = after true failed events in confirm-pending m.pending policies m refl
  after-open_edit (dropped ∷ events) = refl
  after-open_edit (answered reply ∷ events) =
      ap edit_of (answer-pending failed reply (after true failed events)) ∙ after-open_edit events

  -- Exactly the open edit goes out, and only on a confirmation: once for each, and nothing for an edit
  -- that was dropped or needs no dialog.
  pub step-expected :
      (event : Event) (events : List Event)
      → (step true failed event (after true failed events)).1 ≡ expected event events
  unfolding step
  step-expected (proposed iccid change) events = refl
  step-expected (confirmed policies) events =
      let m = after true failed events in
      confirm-sent_for m.pending policies m ∙ ap (λ o. sent_for o policies) (after-open_edit events)
  step-expected dropped events = refl
  step-expected (answered reply) events = refl

  -- A read-only account sends nothing.
  pub step_read_only : (event : Event) (m : Machine) → (step false failed event m).1 ≡ none
  unfolding step
  step_read_only (proposed iccid change) m = refl
  step_read_only (confirmed policies) m = refl
  step_read_only dropped m = refl
  step_read_only (answered reply) m = refl
