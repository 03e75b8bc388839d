-- ===== src/Esim/Panel.antt =====
-- apps/console/components/esim-panel.tsx: what the panel reads off the commands.
pub mod Broken
use vodoge_cloud.Prelude.{
  Bool, true, false, ◌&&◌, ◌||◌, not, Option, none, some, List, [], ◌∷◌, ◌>>=◌, or_default,
  if◌then◌else◌, String,
}
use vodoge_cloud.Prelude.Int.{ℤ, pos, negsuc, ltb_ℤ}
use vodoge_cloud.Text.{Text, units, text_eq}
use vodoge_cloud.Json.{Json}
use vodoge_cloud.Assoc.{values}
use vodoge_cloud.Assoc.Newest.{collect}
use vodoge_cloud.Newest.{newest_from}
use vodoge_cloud.Esim.Reads.{EsimCommandRow, is_succeeded, details_of, or_zero, sort}
use vodoge_cloud.Esim.Answers.{
  EsimAuthentication, parse_esim_authentication, RetrievedNotification,
  parse_retrieved_notification,
}
use vodoge_cloud.Esim.Download.{EsimDownload, parse_esim_download}

-- A succeeded command of the kind.
unfoldable pub is_done : String → EsimCommandRow → Bool
unfolding units
is_done kind row = text_eq row.kind (units kind) && is_succeeded row.status

pub record LatestAuthentication : Type 0 where
  pub authentication : EsimAuthentication
  pub completed_at : Option ℤ

unfoldable pub authentication_entry : EsimCommandRow → Option (Text × LatestAuthentication)
authentication_entry row =
    if not (is_done "initiate_esim_authentication" row)
    then none
    else (parse_esim_authentication (details_of row) >>= λ authentication. some (
      authentication.eid,
      record { authentication = authentication; completed_at = row.completed_at },
    ))

abbrev pub is_older_authentication : LatestAuthentication → LatestAuthentication → Bool
is_older_authentication entry existing =
    not (ltb_ℤ (or_zero existing.completed_at) (or_zero entry.completed_at))

module _ (locale : Text → Text → ℤ) where
  unfoldable pub latest_authentications : List EsimCommandRow → List LatestAuthentication
  latest_authentications commands =
      sort (λ left right. locale left.authentication.eid right.authentication.eid)
        (values (collect authentication_entry is_older_authentication commands []))

pub record LatestDownload : Type 0 where
  pub download : EsimDownload
  pub completed_at : Option ℤ

unfoldable pub download_entry : EsimCommandRow → Option (Text × LatestDownload)
download_entry row =
    if not (is_done "download_esim_profile" row)
    then none
    else (parse_esim_download (details_of row) >>= λ download.
        some (download.eid, record { download = download; completed_at = row.completed_at }))

-- Of two at one time the later row of the list counts here.
abbrev pub is_older_download : LatestDownload → LatestDownload → Bool
is_older_download entry existing =
    ltb_ℤ (or_zero entry.completed_at) (or_zero existing.completed_at)

unfoldable pub latest_downloads : List EsimCommandRow → List LatestDownload
latest_downloads commands = values (collect download_entry is_older_download commands [])

-- What the loop of `newestFailureAfterSuccess` keeps.
pub record Attempts : Type 0 where
  pub failure : Option EsimCommandRow
  pub newest_success : ℤ

-- `!failure || at > (failure.completed_at ?? 0)`
abbrev pub is_newer_failure : EsimCommandRow → Option EsimCommandRow → Bool
is_newer_failure row none = true
is_newer_failure row (some failure) =
    ltb_ℤ (or_zero failure.completed_at) (or_zero row.completed_at)

unfoldable pub note_attempt : EsimCommandRow → Attempts → Attempts
unfolding units
note_attempt row s = record {
  failure =
      if text_eq row.status (units "failed") && is_newer_failure row s.failure
      then some row
      else s.failure;
  newest_success =
      if is_succeeded row.status && ltb_ℤ s.newest_success (or_zero row.completed_at)
      then or_zero row.completed_at
      else s.newest_success;
}

unfoldable pub note_attempts : Text → List EsimCommandRow → Attempts → Attempts
note_attempts kind [] s = s
note_attempts kind (row ∷ commands) s =
    note_attempts kind commands (if not (text_eq row.kind kind) then s else note_attempt row s)

unfoldable pub unless_mended : Attempts → Option EsimCommandRow
unless_mended s = s.failure >>= λ failure.
    if ltb_ℤ s.newest_success (or_zero failure.completed_at) then some failure else none

unfoldable pub newest_failure_after_success : List EsimCommandRow → Text → Option EsimCommandRow
newest_failure_after_success commands kind =
    unless_mended
      (note_attempts kind commands (record { failure = none; newest_success = negsuc 0 }))

unfoldable pub is_esim_read : Text → Bool
unfolding units
is_esim_read kind =
    text_eq kind (units "read_esim_info") || text_eq kind (units "retrieve_esim_notification")

pub record Retrieval : Type 0 where
  pub row : EsimCommandRow
  pub value : RetrievedNotification

unfoldable pub retrieval : EsimCommandRow → Option Retrieval
retrieval row =
    if not (is_done "retrieve_esim_notification" row)
    then none
    else (parse_retrieved_notification (details_of row) >>= λ value.
        some (record { row = row; value = value }))

unfoldable pub latest_retrieval : List EsimCommandRow → Option RetrievedNotification
latest_retrieval commands =
    newest_from (λ best. or_zero best.row.completed_at) retrieval none commands >>= λ best.
    some best.value
