-- ===== src/Grpc.antt =====
-- data-plane/internal/grpc/cert_fetcher.go: the identity that the control plane issues.
use sentinel_zero_trust.Common.{
  Option, List, [], ◌∷◌, ◌++◌, Text, codes, Result, ok, err, ◌>>=◌, ◌≡◌, ◌⊎◌, inl, inr,
  Result-cases, arith,
}
use sentinel_zero_trust.Std.Strings.{trim_space}

-- The fields of `tls.Certificate` that the program reads or fills: the chain in DER, which may be
-- nil, and the key.
pub record TlsCertificate : Type 0 where
  pub certificate : Option (List Text)
  pub private_key : Text

pub record IdentityResult : Type 0 where
  pub certificate : TlsCertificate
  pub pod_uid : Text

-- `proto.CertificateResponse`, as far as it is read.
pub record CertificateResponse : Type 0 where
  pub certificate : Text
  pub private_key : Text
  pub pod_uid : Text

-- What the fetcher calls: the generated client, with the outgoing metadata and the service name,
-- and `tls.X509KeyPair`.
pub record Calls : Type 0 where
  pub get_certificate : List (Text × Text) → Text → Result CertificateResponse
  pub x509_key_pair : Text → Text → Result TlsCertificate

unfoldable pub bearer : Text → List (Text × Text)
bearer token = (codes "x-sentinel-token", codes "Bearer " ++ trim_space token) ∷ []

-- `RealCertFetcher.Fetch`
unfoldable pub fetch : Calls → Text → Text → Result IdentityResult
unfolding bearer
fetch calls token spiffe_id = do
  resp ← calls.get_certificate (bearer token) spiffe_id
  cert ← calls.x509_key_pair resp.certificate resp.private_key
  ok (record { certificate = cert; pod_uid = resp.pod_uid })

-- A fetched identity is a key pair that the control plane sent for this token, trimmed, and this
-- id, with the pod UID of the same response; an error of either call is returned as it is.
pub fetch_lem :
    (calls : Calls) (token spiffe_id : Text)
    → ((e : Text) × (fetch calls token spiffe_id ≡ err e)
        × ((calls.get_certificate (bearer token) spiffe_id ≡ err e)
            ⊎ ((resp : CertificateResponse) × (calls.get_certificate (bearer token) spiffe_id
                  ≡ ok resp)
                × (calls.x509_key_pair resp.certificate resp.private_key ≡ err e))))
      ⊎ ((resp : CertificateResponse) × (cert : TlsCertificate) × (calls.get_certificate
              (bearer token)
              spiffe_id
            ≡ ok resp)
          × (calls.x509_key_pair resp.certificate resp.private_key ≡ ok cert)
          × (fetch calls token spiffe_id
              ≡ ok (record { certificate = cert; pod_uid = resp.pod_uid })))
unfolding fetch
fetch_lem calls token spiffe_id =
    elim (Result-cases (calls.get_certificate (bearer token) spiffe_id)) [
      | inl (e, q) ↦ inl (e, rw (q, fetch), inl q)
      | inr (resp, q) ↦
          elim (Result-cases (calls.x509_key_pair resp.certificate resp.private_key)) [
            | inl (e, k) ↦ inl (e, ground arith, inr (resp, q, k))
            | inr (cert, k) ↦ inr (resp, cert, q, k, ground arith)
          ]
    ]
