-- ===== src/Esim/Reads.antt =====
-- apps/console/lib/catalog.ts, `latestEsimChipReads` to `mergeEsimProfiles`. `localeCompare` is the
-- parameter `locale`; sorting is stable.
use vodoge_cloud.Prelude.{
  Bool, ◌||◌, not, Option, none, some, List, [], ◌∷◌, ◌++◌, map, ◌>>=◌, or_default, or_else,
  if◌then◌else◌,
}
use vodoge_cloud.Prelude.Int.{ℤ, pos, ltb_ℤ}
use vodoge_cloud.Text.{Text, units, text_eq, is_empty}
use vodoge_cloud.Json.{Json, Props, end, as_record, text_at}
use vodoge_cloud.Assoc.{Assoc, get, set, values}
use vodoge_cloud.Assoc.Newest.{collect}
use vodoge_cloud.Esim.{
  EsimProfileRow, EsimReadProfile, EsimInfoResult, read, profiles_of, parse_esim_info_result,
  esim_profile_display_name,
}

pub record EsimCommandResult : Type 0 where
  pub status : Option Text
  pub reason : Option Text
  pub details : Option Json

-- Enough of a relayed command for the functions below.
pub record EsimCommandRow : Type 0 where
  pub kind : Text
  pub status : Text
  pub completed_at : Option ℤ
  pub payload : Option Props
  pub result : Option EsimCommandResult

pub record EsimChipReading : Type 0 where
  pub info : EsimInfoResult
  pub completed_at : Option ℤ

-- `Array.prototype.sort`: a row goes before the first one that the comparison puts behind it.
module _ {V : Type 0} (order : V → V → ℤ) where
  unfoldable pub insert : V → List V → List V
  insert v [] = v ∷ []
  insert v (w ∷ ws) = if ltb_ℤ (pos 0) (order v w) then w ∷ insert v ws else v ∷ w ∷ ws

  unfoldable pub sort : List V → List V
  sort [] = []
  sort (v ∷ vs) = insert v (sort vs)

-- `ESIM_CHIP_COMMANDS.has(kind)`
unfoldable pub is_chip_command : Text → Bool
unfolding units
is_chip_command kind =
    text_eq kind (units "read_esim_info") || text_eq kind (units "list_esim_profiles")

abbrev pub is_succeeded : Text → Bool
unfolding units
is_succeeded status = text_eq status (units "succeeded")

abbrev pub details_of : EsimCommandRow → Option Json
details_of row = row.result >>= λ result. result.details

-- `at ?? 0`
abbrev pub or_zero : Option ℤ → ℤ
or_zero at = or_default at (pos 0)

-- A row that is a reading of a chip, under the chip's name.
unfoldable pub chip_reading : EsimCommandRow → Option (Text × EsimChipReading)
unfolding units
chip_reading row =
    if not (text_eq row.kind (units "read_esim_info")) || not (is_succeeded row.status)
    then none
    else (parse_esim_info_result (details_of row) >>= λ info.
        some (info.eid, record { info = info; completed_at = row.completed_at }))

-- `(existing.completedAt ?? 0) >= (row.completed_at ?? 0)`
abbrev pub is_older_reading : EsimChipReading → EsimChipReading → Bool
is_older_reading reading existing =
    not (ltb_ℤ (or_zero existing.completed_at) (or_zero reading.completed_at))

module _ (locale : Text → Text → ℤ) where
  unfoldable pub latest_esim_chip_reads : List EsimCommandRow → List EsimChipReading
  latest_esim_chip_reads rows =
      sort (λ left right. locale left.info.eid right.info.eid)
        (values (collect chip_reading is_older_reading rows []))

pub record EsimProfileListing : Type 0 where
  pub modem_imei : Text
  pub eid : Option Text
  pub profiles : List EsimReadProfile
  pub profiles_error : Option Text
  pub collected_at : ℤ

-- The last chip that each modem was read with.
unfoldable pub eid_by_imei : List EsimChipReading → Assoc Text → Assoc Text
eid_by_imei [] m = m
eid_by_imei (reading ∷ readings) m = eid_by_imei readings (set reading.info.imei reading.info.eid m)

-- A row that lists profiles, under the modem that it is about.
unfoldable pub profile_listing : Assoc Text → EsimCommandRow → Option (Text × EsimProfileListing)
profile_listing eids row =
    if not (is_succeeded row.status) || not (is_chip_command row.kind)
    then none
    else (as_record (details_of row) >>= λ body.
        or_else (text_at "imei" body) (text_at "modem_imei" (or_default row.payload end))
        >>= λ imei. some (
          imei,
          record {
            modem_imei = imei;
            eid = or_else (text_at "eid" body) (get imei eids);
            profiles = profiles_of body;
            profiles_error = text_at "profiles_error" body;
            collected_at = or_zero row.completed_at;
          },
        ))

-- `existing.collectedAt >= at`
abbrev pub is_older_listing : EsimProfileListing → EsimProfileListing → Bool
is_older_listing listing existing = not (ltb_ℤ existing.collected_at listing.collected_at)

module _ (locale : Text → Text → ℤ) where
  unfoldable pub latest_esim_profile_listings : List EsimCommandRow → List EsimProfileListing
  latest_esim_profile_listings rows =
      let eids = eid_by_imei (latest_esim_chip_reads locale rows) [] in
      sort (λ left right. locale left.modem_imei right.modem_imei)
        (values (collect (profile_listing eids) is_older_listing rows []))

unfoldable pub row_of : EsimProfileListing → Text → EsimReadProfile → EsimProfileRow
unfolding units
row_of listing eid profile = record {
  eid = eid;
  iccid = profile.iccid;
  state = if profile.enabled then units "enabled" else units "disabled";
  nickname = esim_profile_display_name profile;
  modem_imei = some listing.modem_imei;
  collected_at = listing.collected_at;
  source = read;
}

-- A listing with no chip, or an empty name of one, gives no rows.
unfoldable pub rows_of : EsimProfileListing → List EsimProfileRow
rows_of listing = elim listing.eid [
  | none ↦ []
  | some eid ↦ if is_empty eid then [] else map (row_of listing eid) listing.profiles
]

unfoldable pub rows_of_all : List EsimProfileListing → List EsimProfileRow
rows_of_all [] = []
rows_of_all (listing ∷ listings) = rows_of listing ++ rows_of_all listings

module _ (locale : Text → Text → ℤ) where
  unfoldable pub esim_profile_rows_from_reads : List EsimCommandRow → List EsimProfileRow
  esim_profile_rows_from_reads rows = rows_of_all (latest_esim_profile_listings locale rows)
