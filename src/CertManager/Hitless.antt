-- ===== src/CertManager/Hitless.antt =====
-- Hitless rotation: what the proxy can ever serve.
use sentinel_zero_trust.Common.{◌≡◌, refl, ◌⊎◌, inl, inr, some, List, [], ◌∷◌, Text, All}
use sentinel_zero_trust.Grpc.{TlsCertificate}
use sentinel_zero_trust.CertManager.{
  State, Params, Round, Action, waited, signalled, requested, fetched, installed, start_rotation,
}
use sentinel_zero_trust.CertManager.Trace.{
  Served, served, last_state, serve_after, served-start_rotation, Issued, IsProper,
  start_rotation-IsProper,
}

abbrev pub KeptOrIssued : Params → List Round → Served → Served → Type 0
KeptOrIssued p rs v w =
    (w ≡ v) ⊎ ((c : TlsCertificate) × (uid : Text) × (w ≡ (some c, uid)) × Issued p rs c uid)

serve_after-KeptOrIssued :
    (p : Params) (rs : List Round) (acts : List Action) (v w : Served)
    → All (IsProper p rs) acts
    → KeptOrIssued p rs v w
    → KeptOrIssued p rs v (serve_after acts w)
serve_after-KeptOrIssued p rs [] v w h k = k
serve_after-KeptOrIssued p rs (installed c uid ∷ acts) v w (i, h) k =
    serve_after-KeptOrIssued p rs acts v (some c, uid) h (inr (c, uid, refl, i))
serve_after-KeptOrIssued p rs (waited d ∷ acts) v w (i, h) k =
    serve_after-KeptOrIssued p rs acts v w h k
serve_after-KeptOrIssued p rs (signalled ∷ acts) v w (i, h) k =
    serve_after-KeptOrIssued p rs acts v w h k
serve_after-KeptOrIssued p rs (requested a b c d ∷ acts) v w (i, h) k =
    serve_after-KeptOrIssued p rs acts v w h k
serve_after-KeptOrIssued p rs (fetched t j ∷ acts) v w (i, h) k =
    serve_after-KeptOrIssued p rs acts v w h k

-- Whatever fails, is cancelled or comes back in whatever order: after any rounds the proxy serves
-- what it served before, or a certificate that the control plane issued in one of these rounds
-- for its SPIFFE id, together with the pod UID of that same answer.
pub served-KeptOrIssued :
    (p : Params) (rs : List Round) (s : State)
    → KeptOrIssued p rs (served s) (served (last_state (start_rotation p rs s).1))
served-KeptOrIssued p rs s = rw (served-start_rotation p rs s) (
    serve_after-KeptOrIssued p rs (start_rotation p rs s).0 (served s) (served s)
      (start_rotation-IsProper p rs s) (inl refl))
