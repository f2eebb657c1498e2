-- ===== src/Examples/Identity.antt =====
-- SPIFFE ids, fetched identities and host addresses.
use sentinel_zero_trust.Common.{◌≡◌, refl, List, [], ◌∷◌, Text, codes, ok, text_eq}
use sentinel_zero_trust.Grpc.{Calls}
use sentinel_zero_trust.Utils.Claims.{get_spiffe_id}
use sentinel_zero_trust.Utils.Claims.Ids.{HasSegments, IsSegment, get_spiffe_id-injective}
use sentinel_zero_trust.Utils.HostAddress.{Addr, ip_net, other, v4}
use sentinel_zero_trust.Examples.Data.{cart_claims, new_cert}

abbrev cart_id : Text
cart_id = codes "spiffe://cluster.local/ns/shop/sa/cart"

cart-HasSegments : HasSegments cart_claims
cart-HasSegments = record {
  namespace = (refl, (refl, (refl, (refl, tt))));
  service_account_name = (refl, (refl, (refl, (refl, tt))));
}

domain-IsSegment : IsSegment (codes "cluster.local")
domain-IsSegment = (
  refl,
  (
    refl,
    (refl, (refl, (refl, (refl, (refl, (refl, (refl, (refl, (refl, (refl, (refl, tt))))))))))),
  ),
)

get_spiffe_id-injective_example : cart_claims ≡ cart_claims
unfolding get_spiffe_id text_eq
get_spiffe_id-injective_example =
    get_spiffe_id-injective cart_claims cart_claims (codes "cluster.local") {id = cart_id}
      cart-HasSegments cart-HasSegments domain-IsSegment refl refl

abbrev calls : Calls
calls = record {
  get_certificate = λ headers id.
      ok (record { certificate = codes "pem"; private_key = codes "key"; pod_uid = codes "uid-2" });
  x509_key_pair = λ pem key. ok new_cert;
}

abbrev addrs : List (List Addr)
addrs = (ip_net (v4 (record { b0 = 10; b1 = 0; b2 = 0; b3 = 7 })) ∷ []) ∷ [] ∷ (other ∷ []) ∷ []
