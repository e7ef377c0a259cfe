-- ===== src/Examples/Configs.antt =====
-- The configuration of an empty environment, and version rules from a text.
use shiro_distributed_system.Common.{◌≡◌, refl, none, All, codes, trim_space, to_lower}
use shiro_distributed_system.Config.Parse.{
  env_or, split, split_or, host_or, bool_or, int_or, parse_schema_version_rules,
}
use shiro_distributed_system.Config.Env.{from_env}
use shiro_distributed_system.Config.Validate.{checks, problems, validate}
use shiro_distributed_system.Examples.Memory.{defaults}
use shiro_distributed_system.Config.Rules.{IsRange, parse_schema_version_rules-All}

validate-defaults : validate defaults ≡ none
unfolding from_env validate checks problems int_or bool_or split_or split env_or host_or trim_space
    to_lower
validate-defaults = refl

parse_schema_version_rules-All_example :
    All (λ e. IsRange e.1) (parse_schema_version_rules (codes "order.created:1-3,bad:4-2"))
parse_schema_version_rules-All_example =
    parse_schema_version_rules-All (codes "order.created:1-3,bad:4-2")
