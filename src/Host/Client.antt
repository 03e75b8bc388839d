-- ===== src/Host/Client.antt =====
-- Whose address a request counts against, and whose host it names (apps/console/lib/host.ts,
-- `forwardedClientAddress` and `requestHost`).
use vodoge_cloud.Prelude.{ℕ, ◌≡◌, refl, false, none, some, ◌∷◌, ◌++◌, arith, []}
use vodoge_cloud.Text.{Text, is_empty, has_unit, last_or}
use vodoge_cloud.Text.Cutting.{split_first-last}
use vodoge_cloud.Host.{
  Headers, request_host, normalise_address, forwarded_client_address, last_part,
}

-- Unless the deployment trusts its proxy, no header but the two spellings of `Host` decides the
-- host.
pub request_host-untrusted :
    (h k : Headers)
    → h "host" ≡ k "host"
    → h "Host" ≡ k "Host"
    → request_host h false ≡ request_host k false
unfolding request_host
request_host-untrusted h k p q = rw (p, q)

is_empty-append : (s : Text) (c : ℕ) (t : Text) → is_empty (s ++ c ∷ t) ≡ false
is_empty-append [] c t = refl
is_empty-append (d ∷ s) c t = refl

last_part-appended : (s p : Text) → has_unit b',' p ≡ false → last_part (s ++ b',' ∷ p) ≡ p
unfolding last_part last_or
last_part-appended s p single = let (a, b, bs, e, l) = split_first-last b',' s p single in rw e l

-- Where Cloudflare's header gives no address, the address is the one that the last proxy appended to
-- the chain, whatever the caller wrote in front of it.
pub forwarded_client_address-appended :
    (headers : Headers) (claimed appended : Text)
    → normalise_address (headers "cf-connecting-ip") ≡ none
    → headers "x-forwarded-for" ≡ some (claimed ++ b',' ∷ appended)
    → has_unit b',' appended ≡ false
    → forwarded_client_address headers ≡ normalise_address (some appended)
unfolding forwarded_client_address
forwarded_client_address-appended headers claimed appended cf xff single =
    ground
      (arith, is_empty-append claimed b',' appended, last_part-appended claimed appended single)
