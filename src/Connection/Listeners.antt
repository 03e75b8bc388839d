-- ===== src/Connection/Listeners.antt =====
-- Whom the monitor tells (apps/console/lib/pwa.ts, `publish`).
use vodoge_cloud.Prelude.{
  ℕ, ◌≡◌, refl, sym, ◌∙◌, ◌↔◌, ◌≢◌, inl, inr, true, false, arith, Bool-cases, List, [], ◌∷◌, ◌++◌,
  not, ◌&&◌, any, ◌==◌, if_both, Any,
}
use vodoge_cloud.Connection.Laws.{publish_shows}
use vodoge_cloud.Connection.{
  ConnectionView, connection_view, Monitor, Effect, notify, schedule, publish, stop, unsubscribe,
  step, Event, reachable, unreachable, offline, view_changed, notify_all, subscribed, unsubscribed,
  stopping,
}

-- Among the effects a listener is told a view.
abbrev pub Tells : ℕ → ConnectionView → List Effect → Type 0
Tells l v effects = Any (λ x. x ≡ notify l v) effects

view_changed-ne : (a b : ConnectionView) → view_changed a b ≡ true → a ≢ b
view_changed-ne a b h e = ground arith

view_changed-eq : (a b : ConnectionView) → view_changed a b ≡ false → a ≡ b
view_changed-eq a b h = ground arith

notify_all-Tells :
    (l : ℕ) (v w : ConnectionView) (ls : List ℕ)
    → Tells l v (notify_all w ls) ↔ ((v ≡ w) × Any (λ k. k ≡ l) ls)
notify_all-Tells l v w [] = (λ h. elim h [ ], λ (e, h). elim h [ ])
notify_all-Tells l v w (k ∷ ls) =
    let (to, from) = notify_all-Tells l v w ls in
    (
      elim [
        | inl e ↦ (ground arith, inl (ground arith))
        | inr h ↦ let (e, there) = to h in (e, inr there)
      ],
      λ (e, h). elim h [ inl q ↦ inl (ground arith) | inr there ↦ inr (from (e, there)) ],
    )

schedule-silent :
    (l : ℕ) (v : ConnectionView) (m : Monitor) (told : List Effect)
    → Tells l v ((schedule m).1 ++ told) ↔ Tells l v told
unfolding schedule
schedule-silent l v m told =
    if_both Silent m.stopped (λ h. h, λ h. h)
      (if_both Silent (m.last.lost && not m.polling) (elim [ inl e ↦ cc | inr h ↦ h ], λ h. inr h)
        (if_both Silent (not m.last.lost && m.polling) (elim [ inl e ↦ cc | inr h ↦ h ], λ h. inr h)
          (λ h. h, λ h. h)))
  where
    Silent : Monitor × List Effect → Type 0
    Silent r = Tells l v (r.1 ++ told) ↔ Tells l v told

-- What it means that a step from `m` told the listener the view.
abbrev pub IsNews : ℕ → ConnectionView → Monitor → Monitor → Type 0
IsNews l v m m' = (v ≡ m'.last) × (m'.last ≢ m.last) × Any (λ k. k ≡ l) m.listeners

publish-Tells :
    (l : ℕ) (v : ConnectionView) (m : Monitor)
    → Tells l v (publish m).1 ↔ IsNews l v m (publish m).0
unfolding publish
publish-Tells l v m =
    let view = connection_view m.seen in
    let (_, shown, _, _) = publish_shows m in
    let silent = schedule-silent l v (record m { last = view }) in
    elim (Bool-cases (view_changed view m.last)) [
      | inl changed ↦ rw changed (
        λ h.
            let (e, there) = (notify_all-Tells l v view m.listeners).0 ((silent _).0 h) in
            (e ∙ sym shown, λ q. view_changed-ne view m.last changed (sym shown ∙ q), there),
        λ (e, q, there).
            (silent _).1 ((notify_all-Tells l v view m.listeners).1 (e ∙ shown, there)),
      )
      | inr same ↦ rw same (
        λ h. absurd ((silent []).0 h),
        λ (e, q, there). absurd (q (shown ∙ view_changed-eq view m.last same)),
      )
    ]

no-IsNews :
    (l : ℕ) (v : ConnectionView) (m m' : Monitor)
    → m'.last ≡ m.last
    → Tells l v [] ↔ IsNews l v m m'
no-IsNews l v m m' e = (λ h. elim h [ ], λ (_, q, _). absurd (q e))

stop-Tells :
    (l : ℕ) (v : ConnectionView) (m : Monitor) → Tells l v (stop m).1 ↔ IsNews l v m (stop m).0
unfolding stop
stop-Tells l v m = (
  λ h.
      absurd
        (if_both (λ es. Tells l v es → ⊥) m.polling (elim [ inl e ↦ cc | inr q ↦ q ]) (λ q. q) h),
  λ (_, q, _). absurd (q refl),
)

-- A listener is told a view exactly when a step changed what is shown, and then it is told what is
-- shown from then on: no listener is called for a change that is none, and none is passed over.
pub step-Tells :
    (e : Event) (m : Monitor) (l : ℕ) (v : ConnectionView)
    → Tells l v (step e m).1 ↔ IsNews l v m (step e m).0
unfolding step
step-Tells (reachable now) m l v = publish-Tells l v (record m { seen = _ })
step-Tells unreachable m l v = publish-Tells l v (record m { seen = _ })
step-Tells offline m l v =
    if_both (λ (r : Monitor × List Effect). Tells l v r.1 ↔ IsNews l v m r.0) m.stopped
      {x = (m, [])} (no-IsNews l v m m refl) (publish-Tells l v (record m { seen = _ }))
step-Tells (subscribed k) m l v =
    if_both (λ (m' : Monitor). Tells l v [] ↔ IsNews l v m m') (any (λ j. j == k) m.listeners)
      (no-IsNews l v m m refl)
      (no-IsNews l v m (record m { listeners = m.listeners ++ k ∷ [] }) refl)
step-Tells (unsubscribed k) m l v = no-IsNews l v m (unsubscribe k m) refl
step-Tells stopping m l v = stop-Tells l v m
