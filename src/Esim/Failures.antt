-- ===== src/Esim/Failures.antt =====
-- apps/console/lib/catalog.ts, `esimReadFailures`: the chip reads that are broken now.
pub mod Loop
pub mod Current
use vodoge_cloud.Prelude.{
  ℕ, ◌+◌, Bool, true, false, ◌&&◌, ◌||◌, not, Option, none, some, List, [], ◌∷◌, ◌>>=◌, or_default,
  select, map, ltb, if◌then◌else◌,
}
use vodoge_cloud.Prelude.Int.{ℤ, negsuc, ltb_ℤ}
use vodoge_cloud.Text.{Text, units, text_eq, is_empty, includes, lower_unit}
use vodoge_cloud.Json.{Props, end, text_at}
use vodoge_cloud.Assoc.{Assoc, get, set, values}
use vodoge_cloud.Assoc.Newest.{keep}
use vodoge_cloud.Esim.{EsimProfileRow, EsimInfoResult, parse_esim_info_result}
use vodoge_cloud.Esim.Reads.{
  EsimCommandRow, is_chip_command, is_succeeded, details_of, or_zero, sort,
}
use vodoge_cloud.Esim.Merge.{has}

pub data EsimReadFailureCause : Type 0 where
  no_euicc : EsimReadFailureCause
  read_failed : EsimReadFailureCause

pub record EsimReadFailure : Type 0 where
  pub modem_imei : Text
  pub cause : EsimReadFailureCause
  pub reason : Text
  pub failed_at : Option ℤ

-- The flag `i` of the expression: its letters match in either case.
unfoldable pub refused_isdr_channel : Text → Bool
unfolding units
refused_isdr_channel reason = includes (map lower_unit reason) (units "open isd-r channel")

-- `if (row.modemImei && row.eid) knownEuicc.add(row.modemImei);`
unfoldable pub note_known : Option Text → Text → List Text → List Text
note_known none eid known = known
note_known (some imei) eid known = if is_empty imei || is_empty eid then known else imei ∷ known

-- The modules that the inventory has a chip for.
unfoldable pub known_of : List EsimProfileRow → List Text
known_of [] = []
known_of (row ∷ rows) = note_known row.modem_imei row.eid (known_of rows)

-- What the loop over the commands keeps.
pub record Reading : Type 0 where
  pub known_euicc : List Text
  pub newest_success : Assoc ℤ
  pub failures : Assoc EsimReadFailure

-- `newestSuccess.get(imei) ?? -1`
abbrev pub success_of : Text → Assoc ℤ → ℤ
success_of imei m = or_default (get imei m) (negsuc 0)

-- `if (info?.eid) knownEuicc.add(imei);`
abbrev pub learn : Text → Option EsimInfoResult → List Text → List Text
learn imei none known = known
learn imei (some info) known = if is_empty info.eid then known else imei ∷ known

unfoldable pub on_success : Text → EsimCommandRow → Reading → Reading
on_success imei row s = record {
  known_euicc = learn imei (parse_esim_info_result (details_of row)) s.known_euicc;
  newest_success =
      if ltb_ℤ (success_of imei s.newest_success) (or_zero row.completed_at)
      then set imei (or_zero row.completed_at) s.newest_success
      else s.newest_success;
  failures = s.failures;
}

unfoldable pub failure_of : Text → EsimCommandRow → EsimReadFailure
failure_of imei row = record {
  modem_imei = imei;
  cause = read_failed;
  reason = or_default (row.result >>= λ result. result.reason) [];
  failed_at = row.completed_at;
}

-- `(existing.failedAt ?? 0) >= at`
abbrev pub is_older_failure : EsimReadFailure → EsimReadFailure → Bool
is_older_failure failure existing =
    not (ltb_ℤ (or_zero existing.failed_at) (or_zero failure.failed_at))

unfoldable pub on_failure : Text → EsimCommandRow → Reading → Reading
on_failure imei row s = record {
  known_euicc = s.known_euicc;
  newest_success = s.newest_success;
  failures = keep (is_older_failure (failure_of imei row)) imei (failure_of imei row) s.failures;
}

-- A command on the chip of the module that it names, if it names one.
unfoldable pub attempt : Option Text → EsimCommandRow → Reading → Reading
unfolding units
attempt none row s = s
attempt (some imei) row s =
    if is_succeeded row.status
    then on_success imei row s
    else if not (text_eq row.status (units "failed"))
    then s
    else on_failure imei row s

-- `asString((row.payload ?? {}).modem_imei)`
abbrev pub addressed_imei : EsimCommandRow → Option Text
addressed_imei row = text_at "modem_imei" (or_default row.payload end)

unfoldable pub read_row : EsimCommandRow → Reading → Reading
read_row row s = if not (is_chip_command row.kind) then s else attempt (addressed_imei row) row s

unfoldable pub read_rows : List EsimCommandRow → Reading → Reading
read_rows [] s = s
read_rows (row ∷ rows) s = read_rows rows (read_row row s)

-- `(failure.failedAt ?? 0) > (newestSuccess.get(failure.modemImei) ?? -1)`
unfoldable pub is_broken_now : Assoc ℤ → EsimReadFailure → Bool
is_broken_now successes failure =
    ltb_ℤ (success_of failure.modem_imei successes) (or_zero failure.failed_at)

unfoldable pub with_cause : List Text → EsimReadFailure → EsimReadFailure
with_cause known failure = record failure {
  cause =
      if refused_isdr_channel failure.reason && not (has failure.modem_imei known)
      then no_euicc
      else read_failed;
}

-- What the loop starts with.
abbrev pub before : List EsimProfileRow → Reading
before inventory = record { known_euicc = known_of inventory; newest_success = []; failures = [] }

module _ (locale : Text → Text → ℤ) where
  unfoldable pub esim_read_failures :
      List EsimCommandRow → List EsimProfileRow → List EsimReadFailure
  esim_read_failures rows inventory =
      let s = read_rows rows (before inventory) in
      sort (λ left right. locale left.modem_imei right.modem_imei)
        (map (with_cause s.known_euicc)
          (select (is_broken_now s.newest_success) (values s.failures)))
