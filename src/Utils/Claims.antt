-- ===== src/Utils/Claims.antt =====
-- data-plane/internal/utils/utils.go: the claims of a token and the SPIFFE id made from them.
pub mod Ids
use sentinel_zero_trust.Common.{◌++◌, Text, codes, text_eq, Result, ok, err, if◌then◌else◌}

-- The claims that the program reads.
pub record KubernetesClaims : Type 0 where
  pub namespace : Text
  pub service_account_name : Text

-- `jwt.Parser.ParseUnverified` into the claims is a parameter: it reads the token and checks no
-- signature. The type assertion on what it filled cannot fail.
unfoldable pub parse_jwt : (Text → Result KubernetesClaims) → Text → Result KubernetesClaims
parse_jwt parse_unverified token_string = parse_unverified token_string

unfoldable pub get_spiffe_id : KubernetesClaims → Text → Result Text
get_spiffe_id k trusted_domain =
    if text_eq trusted_domain (codes "")
    then err (codes "trusted domain is empty")
    else ok (
        codes "spiffe://"
        ++ (trusted_domain
            ++ (codes "/ns/" ++ (k.namespace ++ (codes "/sa/" ++ k.service_account_name)))))
