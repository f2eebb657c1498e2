-- ===== src/Utils/Claims/Ids.antt =====
-- What a SPIFFE id says of the service account that it was made for.
use sentinel_zero_trust.Common.{
  ◌≡◌, refl, ap, ◌∙◌, ◌≢◌, inl, inr, Bool-cases, List, [], ◌∷◌, Text, codes, text_eq, text_eq_iff,
  ok, arith,
}
use sentinel_zero_trust.Std.Strings.{split, join, Lacks, split-join}
use sentinel_zero_trust.Utils.Claims.{KubernetesClaims, get_spiffe_id}

-- A name without a slash, such as Kubernetes admits.
abbrev pub IsSegment : Text → Type 0
IsSegment = Lacks b'/'

pub record HasSegments (k : KubernetesClaims) : Type 0 where
  pub namespace : IsSegment k.namespace
  pub service_account_name : IsSegment k.service_account_name

abbrev pub segments : Text → KubernetesClaims → List Text
segments domain k =
    codes "spiffe:"
    ∷ []
    ∷ domain
    ∷ codes "ns"
    ∷ k.namespace
    ∷ codes "sa"
    ∷ k.service_account_name
    ∷ []

get_spiffe_id-join :
    (k : KubernetesClaims) (domain : Text) {id : Text}
    → get_spiffe_id k domain ≡ ok id
    → id ≡ join (codes "/") (segments domain k)
unfolding get_spiffe_id
get_spiffe_id-join k domain h = ground arith

-- Where the domain, the namespace and the service account hold no slash, a SPIFFE id splits at its
-- slashes into the scheme, the domain, "ns", the namespace, "sa" and the account.
pub split-get_spiffe_id :
    (k : KubernetesClaims) (domain : Text) {id : Text}
    → HasSegments k
    → IsSegment domain
    → get_spiffe_id k domain ≡ ok id
    → split b'/' id ≡ segments domain k
split-get_spiffe_id k domain h d e =
    ap (split b'/') (get_spiffe_id-join k domain e)
    ∙ split-join b'/' (segments domain k) (cc) (
      (refl, (refl, (refl, (refl, (refl, (refl, (refl, tt))))))),
      (
        tt,
        (
          d,
          ((refl, (refl, tt)), (h.namespace, ((refl, (refl, tt)), (h.service_account_name, tt)))),
        ),
      ),
    )

-- Two service accounts of one trust domain never share a SPIFFE id, if no name holds a slash.
pub get_spiffe_id-injective :
    (k l : KubernetesClaims) (domain : Text) {id : Text}
    → HasSegments k
    → HasSegments l
    → IsSegment domain
    → get_spiffe_id k domain ≡ ok id
    → get_spiffe_id l domain ≡ ok id
    → k ≡ l
get_spiffe_id-injective k l domain hk hl d ek el =
    ground (arith, split-get_spiffe_id k domain hk d ek, split-get_spiffe_id l domain hl d el)

pub get_spiffe_id-ok :
    (k : KubernetesClaims) (domain : Text)
    → domain ≢ []
    → (id : Text) × (get_spiffe_id k domain ≡ ok id)
unfolding get_spiffe_id
get_spiffe_id-ok k domain h = elim (Bool-cases (text_eq domain [])) [
  | inl e ↦ absurd (h ((text_eq_iff domain []).0 e))
  | inr e ↦ (join (codes "/") (segments domain k), rw e)
]
