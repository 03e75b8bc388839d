-- ===== src/Esim/Failures/Current.antt =====
-- What a reported failure says (apps/console/lib/catalog.ts, `esimReadFailures`).
use vodoge_cloud.Prelude.{
  ◌≡◌, inl, inr, Bool, true, false, ◌||◌, Option, none, some, List, [], ◌∷◌, All, select, map,
  arith, Bool-cases, if_both,
}
use vodoge_cloud.Prelude.Int.{ℤ, ltb_ℤ, ◌≤ℤ◌}
use vodoge_cloud.Text.{Text, is_empty}
use vodoge_cloud.Text.Laws.{text_eq_refl}
use vodoge_cloud.Assoc.{values}
use vodoge_cloud.Assoc.Newest.{All-map}
use vodoge_cloud.Esim.{EsimProfileRow}
use vodoge_cloud.Esim.Reads.{EsimCommandRow, or_zero}
use vodoge_cloud.Esim.Merge.{has}
use vodoge_cloud.Esim.Merge.Apart.{sort-All}
use vodoge_cloud.Esim.Failures.{
  EsimReadFailure, before, note_known, no_euicc, refused_isdr_channel, known_of, Reading,
  success_of, read_rows, is_broken_now, with_cause, esim_read_failures,
}
use vodoge_cloud.Esim.Failures.Loop.{IsReadOf, read_rows-Grows, read_rows-reaches}

-- The inventory has a chip in this module.
abbrev pub IsKnownBy : Text → EsimProfileRow → Type 0
IsKnownBy imei row =
    (row.modem_imei ≡ some imei) × (is_empty imei ≡ false) × (is_empty row.eid ≡ false)

note_known-keeps :
    (k : Text) (imei : Option Text) (eid : Text) (known : List Text)
    → has k known ≡ true
    → has k (note_known imei eid known) ≡ true
unfolding note_known
note_known-keeps k none eid known h = h
note_known-keeps k (some imei) eid known h =
    if_both (λ l. has k l ≡ true) (is_empty imei || is_empty eid) h (ground arith)

note_known-adds :
    (k : Text) (row : EsimProfileRow) (known : List Text)
    → IsKnownBy k row
    → has k (note_known row.modem_imei row.eid known) ≡ true
unfolding note_known
note_known-adds k row known (there, a, b) =
    rw (there, note_known, a, b) (ground (arith, text_eq_refl k))

known_of-has :
    (imei : Text) (rows : List EsimProfileRow)
    → All (λ r. IsKnownBy imei r → has imei (known_of rows) ≡ true) rows
unfolding known_of
known_of-has imei [] = tt
known_of-has imei (row ∷ rows) = (
  λ is. note_known-adds imei row (known_of rows) is,
  All-map (λ r h is. note_known-keeps imei row.modem_imei row.eid (known_of rows) (h is)) rows
      (known_of-has imei rows),
)

module _ {V : Type 0} (P : V → Type 0) where
  select-All : (p : V → Bool) → ((v : V) → p v ≡ true → P v) → (vs : List V) → All P (select p vs)
  select-All p each [] = tt
  select-All p each (v ∷ vs) = elim (Bool-cases (p v)) [
    | inl kept ↦ rw (kept, select) (each v kept, select-All p each vs)
    | inr dropped ↦ rw (dropped, select) (select-All p each vs)
  ]

map-All :
    {V : Type 0} (P : V → Type 0) (f : V → V) (vs : List V)
    → All (λ v. P (f v)) vs
    → All P (map f vs)
map-All P f [] h = tt
map-All P f (v ∷ vs) (p, h) = (p, map-All P f vs h)

-- No read of the module's chip has succeeded at the failure's time or later; and where it is put down
-- to a module with no eUICC, the channel was refused and the inventory has no chip in that module.
abbrev pub IsCurrent : List EsimCommandRow → List EsimProfileRow → EsimReadFailure → Type 0
IsCurrent rows inventory f =
    All (λ r. IsReadOf f.modem_imei r → ltb_ℤ (or_zero r.completed_at) (or_zero f.failed_at) ≡ true)
      rows
    × (f.cause ≡ no_euicc
        → (refused_isdr_channel f.reason ≡ true)
          × All (λ r. IsKnownBy f.modem_imei r → ⊥) inventory)

after_all : (a b c : ℤ) → a ≤ℤ b → ltb_ℤ b c ≡ true → ltb_ℤ a c ≡ true
after_all a b c h k = ground arith

no_euicc-cause :
    (known : List Text) (f : EsimReadFailure)
    → (with_cause known f).cause ≡ no_euicc
    → (refused_isdr_channel f.reason ≡ true) × (has f.modem_imei known ≡ false)
unfolding with_cause
no_euicc-cause known f e = (ground arith, ground arith)

with_cause-IsCurrent :
    (rows : List EsimCommandRow) (inventory : List EsimProfileRow) (f : EsimReadFailure)
    (s : Reading)
    → ((k : Text) → has k (known_of inventory) ≡ true → has k (read_rows rows s).known_euicc ≡ true)
    → is_broken_now (read_rows rows s).newest_success f ≡ true
    → IsCurrent rows inventory (with_cause (read_rows rows s).known_euicc f)
unfolding is_broken_now with_cause
with_cause-IsCurrent rows inventory f s knows broken =
    let t = read_rows rows s in
    (
      All-map
          (λ r h is.
            after_all (or_zero r.completed_at) (success_of f.modem_imei t.newest_success)
              (or_zero f.failed_at) (h is) broken)
          rows (read_rows-reaches f.modem_imei rows s),
      λ e.
          let (refused, unknown) = no_euicc-cause t.known_euicc f e in
          (
            refused,
            All-map (λ r h is. let is_known = knows f.modem_imei (h is) in absurd (ground arith))
                inventory (known_of-has f.modem_imei inventory),
          ),
    )

-- Every reported failure is of now: each succeeded read that is addressed to its module finished
-- before it. One that is put down to a module with no eUICC was refused the channel, and the inventory
-- names no chip in that module.
pub esim_read_failures-IsCurrent :
    (locale : Text → Text → ℤ) (rows : List EsimCommandRow) (inventory : List EsimProfileRow)
    → All (IsCurrent rows inventory) (esim_read_failures locale rows inventory)
unfolding esim_read_failures
esim_read_failures-IsCurrent locale rows inventory =
    let start = before inventory in
    let t = read_rows rows start in
    sort-All (λ left right. locale left.modem_imei right.modem_imei) (IsCurrent rows inventory)
      (map (with_cause t.known_euicc) (select (is_broken_now t.newest_success) (values t.failures)))
      (map-All (IsCurrent rows inventory) (with_cause t.known_euicc)
        (select (is_broken_now t.newest_success) (values t.failures))
        (select-All (λ f. IsCurrent rows inventory (with_cause t.known_euicc f))
          (is_broken_now t.newest_success)
          (λ f broken.
            with_cause-IsCurrent rows inventory f start (read_rows-Grows rows start).1 broken)
          (values t.failures)))
