-- ===== src/Catalog/Proxy.antt =====
-- apps/console/lib/catalog.ts: proxy upstreams, instances, traffic and country rules.
use vodoge_cloud.Prelude.{Bool, Option, List, []}
use vodoge_cloud.Prelude.Int.{ℤ, pos}
use vodoge_cloud.Text.{Text, units}
use vodoge_cloud.Json.{Props, field, as_record, array_of, text_or, number_at, number_or, true_at}
use vodoge_cloud.Catalog.{Result, Fetch, Session, get_catalog, cast_rows, ◌>>=◌}

pub record UpstreamRow : Type 0 where
  pub id : Text
  pub name : Text
  pub address : Text
  pub protocol : Text
  pub username : Text
  pub enabled : Bool
  pub has_password : Bool
  pub last_probe : Option Props
  pub last_probe_at : Option ℤ

unfoldable pub upstream_row : Props → UpstreamRow
unfolding units
upstream_row row = record {
  id = text_or [] "id" row;
  name = text_or [] "name" row;
  address = text_or [] "address" row;
  protocol = text_or (units "socks5") "protocol" row;
  username = text_or [] "username" row;
  enabled = true_at "enabled" row;
  has_password = true_at "has_password" row;
  last_probe = as_record (field "last_probe" row);
  last_probe_at = number_at "last_probe_at" row;
}

unfoldable pub fetch_upstreams : Fetch → Session → Result (List UpstreamRow)
unfolding units
fetch_upstreams fetch_impl session = do
  body ← get_catalog fetch_impl session (units "/v1/proxy/upstreams")
  cast_rows upstream_row (array_of (field "upstreams" body))

pub record ProxyInstanceRow : Type 0 where
  pub id : Text
  pub device_id : Text
  pub name : Text
  pub modem_imei : Text
  pub protocol : Text
  pub listen_addr : Text
  pub listen_port : ℤ
  pub auth_enabled : Bool
  pub username : Text
  pub has_password : Bool
  pub upstream_id : Text
  pub enabled : Bool

unfoldable pub proxy_instance_row : Props → ProxyInstanceRow
unfolding units
proxy_instance_row row = record {
  id = text_or [] "id" row;
  device_id = text_or [] "device_id" row;
  name = text_or [] "name" row;
  modem_imei = text_or [] "modem_imei" row;
  protocol = text_or (units "socks5") "protocol" row;
  listen_addr = text_or [] "listen_addr" row;
  listen_port = number_or (pos 0) "listen_port" row;
  auth_enabled = true_at "auth_enabled" row;
  username = text_or [] "username" row;
  has_password = true_at "has_password" row;
  upstream_id = text_or [] "upstream_id" row;
  enabled = true_at "enabled" row;
}

unfoldable pub fetch_proxy_instances : Fetch → Session → Result (List ProxyInstanceRow)
unfolding units
fetch_proxy_instances fetch_impl session = do
  body ← get_catalog fetch_impl session (units "/v1/proxy/instances")
  cast_rows proxy_instance_row (array_of (field "instances" body))

pub record TrafficPoint : Type 0 where
  pub instance_id : Text
  pub hour : ℤ
  pub bytes_up : ℤ
  pub bytes_down : ℤ
  pub connections : ℤ

unfoldable pub traffic_point : Props → TrafficPoint
unfolding units
traffic_point row = record {
  instance_id = text_or [] "instance_id" row;
  hour = number_or (pos 0) "hour" row;
  bytes_up = number_or (pos 0) "bytes_up" row;
  bytes_down = number_or (pos 0) "bytes_down" row;
  connections = number_or (pos 0) "connections" row;
}

unfoldable pub fetch_traffic : Fetch → Session → Result (List TrafficPoint)
unfolding units
fetch_traffic fetch_impl session = do
  body ← get_catalog fetch_impl session (units "/v1/proxy/traffic")
  cast_rows traffic_point (array_of (field "traffic" body))

pub record CountryRuleRow : Type 0 where
  pub country_code : Text
  pub upstream_id : Text

unfoldable pub country_rule_row : Props → CountryRuleRow
unfolding units
country_rule_row row = record {
  country_code = text_or [] "country_code" row;
  upstream_id = text_or [] "upstream_id" row;
}

unfoldable pub fetch_country_rules : Fetch → Session → Result (List CountryRuleRow)
unfolding units
fetch_country_rules fetch_impl session = do
  body ← get_catalog fetch_impl session (units "/v1/proxy/country-rules")
  cast_rows country_rule_row (array_of (field "country_rules" body))
