-- ===== src/Examples/Startup.antt =====
-- The configuration and the start of the proxy.
use sentinel_zero_trust.Common.{ℕ, zero, suc, refl, [], ◌∷◌, codes, Result, ok, err, text_eq}
use sentinel_zero_trust.Config.{or_default, load}
use sentinel_zero_trust.Utils.Claims.{get_spiffe_id}
use sentinel_zero_trust.Proxy.Boot.{Outside, Started, start}
use sentinel_zero_trust.Grpc.{TlsCertificate}
use sentinel_zero_trust.Proxy.Boot.Start.{new_proxy-ok}
use sentinel_zero_trust.Proxy.Boot.Life.{after_rounds, Shows, IsOwn, IsNamed, new_proxy-Shows}
use sentinel_zero_trust.Cmd.{create_proxy}
use sentinel_zero_trust.Cmd.Retry.{Ends, create_proxy-Ends}
use sentinel_zero_trust.Examples.Data.{
  unanswered, renewing, proxy_config, cart_claims, new_identity,
}

abbrev outside : Outside
outside = record {
  read_file = λ path. ok (codes "pem");
  certs_from_pem = λ pem. codes "root" ∷ [];
  request_token = λ ns sa pod uid. ok (codes "jwt-1");
  parse_unverified = λ token. ok cart_claims;
  fetch = λ token id. ok new_identity;
}

abbrev cart_started : Started
cart_started =
    start proxy_config (codes "root" ∷ []) (codes "jwt-1")
      (codes "spiffe://cluster.local/ns/shop/sa/cart") new_identity

new_proxy-Shows_example :
    (c : TlsCertificate) × Shows (after_rounds cart_started (unanswered ∷ renewing ∷ [])) c
    × IsOwn outside cart_started (unanswered ∷ renewing ∷ []) c
    × IsNamed outside proxy_config cart_started.params.spiffe_id
unfolding load or_default get_spiffe_id text_eq
new_proxy-Shows_example =
    new_proxy-Shows outside proxy_config (unanswered ∷ renewing ∷ [])
      (new_proxy-ok outside proxy_config refl refl refl refl refl)

-- The proxy starts at the third try.
abbrev answers : ℕ → Result ℕ
answers zero = err (codes "no token")
answers (suc zero) = err (codes "no token")
answers (suc (suc n)) = ok n

create_proxy-Ends_example : Ends answers 0 0 (create_proxy answers)
create_proxy-Ends_example = create_proxy-Ends answers
