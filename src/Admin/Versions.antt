-- ===== src/Admin/Versions.antt =====
-- programs/tickersix/src/instructions/admin.rs: who changes the configuration, and its versions.
use tickersix.Base.{ℕ, ◌<◌, ◌≡◌, arith}
use tickersix.Errors.{ok}
use tickersix.Runtime.{Key, Runtime}
use tickersix.State.{
  Config, SettlementPolicy, JupiterSourceConfig, MarketQualityPolicy, AttestorSet,
  CompetitionDomain,
}
use tickersix.Admin.{
  PolicyArgs, SourceArgs, handle_create_price_policy, handle_create_jupiter_source_config,
  handle_create_market_quality_policy, handle_create_attestor_set,
}

newer_policy :
    (rt : Runtime) (config : Config) (payer : Key) (args : PolicyArgs) {after : Config}
    {policy : SettlementPolicy}
    → handle_create_price_policy rt config payer args ≡ ok (after, policy)
    → (config.admin_authority ≡ payer)
      × (config.current_settlement_policy_version < policy.version)
      × (after.current_settlement_policy_version ≡ policy.version)
unfolding handle_create_price_policy
newer_policy rt config payer args h = (ground arith, ground arith, ground arith)

newer_source :
    (rt : Runtime) (config : Config) (payer : Key) (set : AttestorSet) (args : SourceArgs)
    {after : Config} {source : JupiterSourceConfig}
    → handle_create_jupiter_source_config rt config payer set args ≡ ok (after, source)
    → (config.admin_authority ≡ payer)
      × (config.current_jupiter_source_config_version < source.version)
      × (after.current_jupiter_source_config_version ≡ source.version)
unfolding handle_create_jupiter_source_config
newer_source rt config payer set args h = (ground arith, ground arith, ground arith)

newer_quality :
    (rt : Runtime) (config : Config) (payer : Key) (version least : ℕ) (hash : Key)
    (domain : CompetitionDomain) {after : Config} {quality : MarketQualityPolicy}
    → handle_create_market_quality_policy rt config payer version hash least domain
      ≡ ok (after, quality)
    → (config.admin_authority ≡ payer)
      × (config.current_market_quality_policy_version < quality.version)
      × (after.current_market_quality_policy_version ≡ quality.version)
unfolding handle_create_market_quality_policy
newer_quality rt config payer version least hash domain h =
    (ground arith, ground arith, ground arith)

newer_set :
    (rt : Runtime) (config : Config) (payer : Key) (version : ℕ) (x y z : Key) {after : Config}
    {attestors : AttestorSet}
    → handle_create_attestor_set rt config payer version x y z ≡ ok (after, attestors)
    → (config.admin_authority ≡ payer)
      × (config.current_attestor_set_version < attestors.version)
      × (after.current_attestor_set_version ≡ attestors.version)
unfolding handle_create_attestor_set
newer_set rt config payer version x y z h = (ground arith, ground arith, ground arith)

-- The administrator signed, and the new version, above the old one, is the current one now.
abbrev pub IsNewer : Config → Key → ℕ → ℕ → ℕ → Type 0
IsNewer config payer old version now =
    (config.admin_authority ≡ payer) × (old < version) × (now ≡ version)

-- Only the administrator publishes a settlement policy, a Jupiter source configuration, a quality policy
-- or an attestor set, and its version is above the last one and becomes the current one.
pub publish-IsNewer :
    (rt : Runtime) (config : Config) (payer : Key) (policy_args : PolicyArgs)
    (source_args : SourceArgs) (set : AttestorSet) (version least : ℕ) (hash x y z : Key)
    (domain : CompetitionDomain) (p : Config × SettlementPolicy) (s : Config × JupiterSourceConfig)
    (q : Config × MarketQualityPolicy) (a : Config × AttestorSet)
    → (handle_create_price_policy rt config payer policy_args ≡ ok p
        → IsNewer config payer config.current_settlement_policy_version p.1.version
            p.0.current_settlement_policy_version)
      × (handle_create_jupiter_source_config rt config payer set source_args ≡ ok s
          → IsNewer config payer config.current_jupiter_source_config_version s.1.version
              s.0.current_jupiter_source_config_version)
      × (handle_create_market_quality_policy rt config payer version hash least domain ≡ ok q
          → IsNewer config payer config.current_market_quality_policy_version q.1.version
              q.0.current_market_quality_policy_version)
      × (handle_create_attestor_set rt config payer version x y z ≡ ok a
          → IsNewer config payer config.current_attestor_set_version a.1.version
              a.0.current_attestor_set_version)
publish-IsNewer rt config payer policy_args source_args set version least hash x y z domain p s q
      a =
    (
      λ h. newer_policy rt config payer policy_args h,
      λ h. newer_source rt config payer set source_args h,
      λ h. newer_quality rt config payer version least hash domain h,
      λ h. newer_set rt config payer version x y z h,
    )
