-- ===== src/Utils/Tokens.antt =====
-- data-plane/internal/utils/token_provider.go: short-lived tokens bound to the pod. The Kubernetes
-- client is a parameter.
use sentinel_zero_trust.Common.{ℕ, ◌*◌, List, [], ◌∷◌, ◌++◌, Text, codes, Result, ok, err, map_err}

-- The parts of `authv1.TokenRequest` that are filled.
pub record TokenRequest : Type 0 where
  pub audiences : List Text
  pub expiration_seconds : ℕ
  pub bound_kind : Text
  pub bound_api_version : Text
  pub bound_name : Text
  pub bound_uid : Text

-- `ServiceAccounts(namespace).CreateToken(ctx, serviceAccount, request, …)`
abbrev pub CreateToken : Type 0
CreateToken = Text → Text → TokenRequest → Result Text

unfoldable pub token_request : Text → Text → TokenRequest
token_request pod_name pod_uid = record {
  audiences = codes "api" ∷ [];
  expiration_seconds = 60 * 60;
  bound_kind = codes "Pod";
  bound_api_version = codes "v1";
  bound_name = pod_name;
  bound_uid = pod_uid;
}

unfoldable pub request_token : CreateToken → Text → Text → Text → Text → Result Text
unfolding token_request
request_token create_token namespace service_account pod_name pod_uid =
    map_err (λ e. codes "Failed to request token: " ++ (e ++ codes "\n"))
      (create_token namespace service_account (token_request pod_name pod_uid))

module _ {Config Clientset : Type 0} where
  unfoldable pub create_clientset : Result Config → (Config → Result Clientset) → Result Clientset
  create_clientset in_cluster_config new_for_config = elim in_cluster_config [
    | err e ↦ err (codes "Failed to create inCluster config: " ++ (e ++ codes "\n"))
    | ok config ↦
        map_err (λ e. codes "Failed to create k8s clientset: " ++ (e ++ codes "\n"))
          (new_for_config config)
  ]
