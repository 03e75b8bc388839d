-- ===== src/Catalog/Device.antt =====
-- apps/console/lib/catalog.ts: devices (`DeviceRow`, `parseDevice`, `fetchDevices`), their uptime and
-- their alerts.
use vodoge_cloud.Prelude.{Option, some, List, ◌>>=◌ as bind}
use vodoge_cloud.Prelude.Int.{ℤ}
use vodoge_cloud.Text.{Text, units}
use vodoge_cloud.Json.{Json, Props, as_record, text_at, text_or, number_at}
use vodoge_cloud.Catalog.{Result, ok, Fetch, Session, get_catalog, parsed_rows, ◌>>=◌}

pub record DeviceRow : Type 0 where
  pub id : Text
  pub name : Text
  pub state : Text
  pub last_seen : Option ℤ
  pub edge_version : Option Text
  pub matrix_version : Option Text
  pub queue_records : Option ℤ
  pub queue_bytes : Option ℤ
  pub resumed_at : Option ℤ
  pub public_ip : Option Text
  pub cpu_percent : Option ℤ
  pub memory_used_bytes : Option ℤ
  pub memory_total_bytes : Option ℤ
  pub disk_used_bytes : Option ℤ
  pub disk_total_bytes : Option ℤ
  pub net_rx_bytes_per_sec : Option ℤ
  pub net_tx_bytes_per_sec : Option ℤ
  pub cpu_model : Option Text
  pub kernel : Option Text
  pub hostname : Option Text
  pub host_reported_at : Option ℤ

-- The row of a record, with the two fields that it must have.
unfoldable pub device_row : Props → Text → Text → DeviceRow
unfolding units
device_row row id name = record {
  id = id;
  name = name;
  state = text_or (units "unknown") "state" row;
  last_seen = number_at "last_seen" row;
  edge_version = text_at "edge_version" row;
  matrix_version = text_at "matrix_version" row;
  queue_records = number_at "queue_records" row;
  queue_bytes = number_at "queue_bytes" row;
  resumed_at = number_at "resumed_at" row;
  public_ip = text_at "public_ip" row;
  cpu_percent = number_at "cpu_percent" row;
  memory_used_bytes = number_at "memory_used_bytes" row;
  memory_total_bytes = number_at "memory_total_bytes" row;
  disk_used_bytes = number_at "disk_used_bytes" row;
  disk_total_bytes = number_at "disk_total_bytes" row;
  net_rx_bytes_per_sec = number_at "net_rx_bytes_per_sec" row;
  net_tx_bytes_per_sec = number_at "net_tx_bytes_per_sec" row;
  cpu_model = text_at "cpu_model" row;
  kernel = text_at "kernel" row;
  hostname = text_at "hostname" row;
  host_reported_at = number_at "host_reported_at" row;
}

unfoldable pub parse_device : Json → Option DeviceRow
parse_device value = bind (as_record (some value)) λ row.
    bind (text_at "id" row) λ id. bind (text_at "name" row) λ name. some (device_row row id name)

unfoldable pub fetch_devices : Fetch → Session → Result (List DeviceRow)
unfolding units
fetch_devices fetch_impl session = do
  body ← get_catalog fetch_impl session (units "/v1/devices")
  ok (parsed_rows parse_device "devices" body)
