-- ===== src/Ussd/Latest.antt =====
-- Which exchange counts as the last one (apps/console/lib/catalog.ts, `latestUssdExchange`).
use vodoge_cloud.Prelude.{◌≡◌, ap, ◌⊎◌, inl, inr, false, none, some, List, All, ◌>>=◌}
use vodoge_cloud.Newest.{IsLatest, newest_row-cases}
use vodoge_cloud.Ussd.{UssdCommandRow, is_ussd, newest_ussd, exchange_of, latest_ussd_exchange}

-- The last exchange is read off a USSD command of the list that no other one of the list was issued
-- after, and there is none only where the list has no USSD command.
pub latest_ussd_exchange-IsLatest :
    (rows : List UssdCommandRow)
    → ((latest_ussd_exchange rows ≡ none) × All (λ q. is_ussd q ≡ false) rows)
      ⊎ ((r : UssdCommandRow) × (latest_ussd_exchange rows ≡ some (exchange_of r))
          × IsLatest is_ussd (λ q. q.issued_at) r rows)
unfolding latest_ussd_exchange newest_ussd
latest_ussd_exchange-IsLatest rows = elim (newest_row-cases is_ussd (λ q. q.issued_at) rows) [
  | inl (nothing, h) ↦ inl (ap (λ o. o >>= λ latest. some (exchange_of latest)) nothing, h)
  | inr (r, found, latest) ↦
      inr (r, ap (λ o. o >>= λ latest. some (exchange_of latest)) found, latest)
]
