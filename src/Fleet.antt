-- ===== src/Fleet.antt =====
-- apps/console/app/devices/page.tsx, `matchingModems` and `orderModems`: the search and the order of the
-- list of modules. `lower` is toLowerCase and `locale` is localeCompare.
pub mod Order
pub mod Place
use vodoge_cloud.Prelude.{
  ℕ, Bool, true, false, Option, none, some, List, [], ◌∷◌, ◌++◌, any, select, or_default,
  if◌then◌else◌,
}
use vodoge_cloud.Prelude.Int.{ℤ, pos, negsuc, ◌-ℤ◌}
use vodoge_cloud.Text.{Text, units, text_eq, is_empty, includes}
use vodoge_cloud.Catalog.Modem.{ModemRow}
use vodoge_cloud.Esim.Reads.{sort}
use vodoge_cloud.TableQuery.{by}

-- What a search looks into.
abbrev pub searched : ModemRow → List (Option Text)
searched modem =
    some modem.imei
    ∷ modem.iccid
    ∷ some modem.family
    ∷ modem.home_plmn
    ∷ modem.serving_plmn
    ∷ modem.msisdn
    ∷ []

unfoldable pub matching_modems : (Text → Text) → List ModemRow → Text → List ModemRow
matching_modems lower modems needle =
    if is_empty needle
    then modems
    else select
        (λ modem. any (λ field. includes (lower (or_default field [])) needle) (searched modem))
        modems

-- The difference of two signals, where one that was not measured is minus infinity; of an infinite
-- difference the sort reads the sign alone.
unfoldable pub signal_order : ModemRow → ModemRow → ℤ
signal_order left right = elim left.signal_dbm [
  | none ↦ elim right.signal_dbm [ none ↦ pos 0 | some b ↦ pos 1 ]
  | some a ↦ elim right.signal_dbm [ none ↦ negsuc 0 | some b ↦ b -ℤ a ]
]

unfoldable pub seen_order : ModemRow → ModemRow → ℤ
seen_order left right = or_default right.last_seen (pos 0) -ℤ or_default left.last_seen (pos 0)

-- The comparisons that a choice of order goes through, the IMEI last.
unfoldable pub comparisons : (Text → Text → ℤ) → Text → List (ModemRow → ModemRow → ℤ)
unfolding units
comparisons locale order =
    (if text_eq order (units "signal") then signal_order ∷ [] else [])
    ++ ((if text_eq order (units "seen") then seen_order ∷ [] else [])
        ++ ((λ left right. locale left.imei right.imei) ∷ []))

unfoldable pub order_modems : (Text → Text → ℤ) → List ModemRow → Text → List ModemRow
order_modems locale modems order = sort (by (comparisons locale order)) modems
