-- ===== src/Infra.antt =====
-- The security groups of the deployment (infra/src/foundation/security-groups.ts and
-- security-group-config.ts). The id of a group is written as the group's logical name. Descriptions,
-- tags and the names of rules, which only label a resource, are left out.
pub mod Chains
mod Tests
use mathlib.Core.Option
use rd_shop_backend.Base.{ℕ, Option, none, some, List, [], ◌∷◌, map, RowId}

pub data GroupName : Type 0 where
  sg_alb sg_ecs sg_rds_shop sg_rds_payments sg_mq : GroupName

pub data Scope : Type 0 where
  private_scope public_scope : Scope

pub record SecurityGroup : Type 0 where
  pub logical_name : GroupName
  pub scope : Scope
  pub vpc_id : RowId

pub data Direction : Type 0 where
  ingress egress : Direction

pub data Protocol : Type 0 where
  tcp_protocol all_protocols : Protocol

-- The one of `cidrBlocks`, `self` and `sourceSecurityGroupId` that a rule has
pub data Source : Type 0 where
  cidr_blocks : List RowId → Source
  self_source : Source
  source_security_group_id : GroupName → Source

-- What the three helpers for rules share
pub record RuleArgs : Type 0 where
  pub security_group_id : GroupName
  pub from_port : ℕ
  pub to_port : ℕ
  pub protocol : Protocol
  pub direction : Direction

pub record Rule : Type 0 where
  pub args : RuleArgs
  pub source : Source

-- What the configuration of the network tells the groups
pub record NetworkConfig : Type 0 where
  pub all_traffic_port : ℕ
  pub any_ipv4_cidr : RowId

pub record GroupConfig : Type 0 where
  pub network : NetworkConfig
  pub public_ingress_ipv4_cidrs : List RowId

pub record Foundation : Type 0 where
  pub groups : List SecurityGroup
  pub rules : List Rule

abbrev pub alb_http : ℕ
alb_http = 80

abbrev pub alb_https : ℕ
alb_https = 443

abbrev pub ecs_dynamic_host_port_range_start : ℕ
ecs_dynamic_host_port_range_start = 32768

abbrev pub ecs_dynamic_host_port_range_end : ℕ
ecs_dynamic_host_port_range_end = 65535

abbrev pub ecs_payments_grpc : ℕ
ecs_payments_grpc = 5001

abbrev pub ecs_shop_http : ℕ
ecs_shop_http = 8080

abbrev pub postgres : ℕ
postgres = 5432

abbrev pub rabbitmq_amqp_port : ℕ
rabbitmq_amqp_port = 5672

-- `0.0.0.0/0`, as a number that stands for that string
abbrev pub default_any_ipv4_cidr : RowId
default_any_ipv4_cidr = 1

-- An empty list of blocks throws.
unfoldable pub get_foundation_security_group_config :
    NetworkConfig → Option (List RowId) → Option GroupConfig
get_foundation_security_group_config network none =
    some (record { network = network; public_ingress_ipv4_cidrs = default_any_ipv4_cidr ∷ [] })
get_foundation_security_group_config network (some []) = none
get_foundation_security_group_config network (some (c ∷ cs)) =
    some (record { network = network; public_ingress_ipv4_cidrs = c ∷ cs })

abbrev pub create_cidr_rule : List RowId → RuleArgs → Rule
create_cidr_rule blocks args = record { args = args; source = cidr_blocks blocks }

abbrev pub create_self_rule : RuleArgs → Rule
create_self_rule args = record { args = args; source = self_source }

abbrev pub create_source_security_group_rule : GroupName → RuleArgs → Rule
create_source_security_group_rule from args = record {
  args = args;
  source = source_security_group_id from;
}

abbrev pub create_security_group : RowId → Scope → GroupName → SecurityGroup
create_security_group vpc_id scope logical_name = record {
  logical_name = logical_name;
  scope = scope;
  vpc_id = vpc_id;
}

-- TCP into a group, from one port to another
abbrev pub tcp_into : GroupName → ℕ → ℕ → RuleArgs
tcp_into g first last = record {
  security_group_id = g;
  from_port = first;
  to_port = last;
  protocol = tcp_protocol;
  direction = ingress;
}

-- The body of the loop over the groups
abbrev pub egress_all : NetworkConfig → GroupName → Rule
egress_all network g = create_cidr_rule (network.any_ipv4_cidr ∷ []) (record {
  security_group_id = g;
  from_port = network.all_traffic_port;
  to_port = network.all_traffic_port;
  protocol = all_protocols;
  direction = egress;
})

unfoldable pub foundation_groups : RowId → List SecurityGroup
foundation_groups vpc_id =
    create_security_group vpc_id public_scope sg_alb
    ∷ create_security_group vpc_id private_scope sg_ecs
    ∷ create_security_group vpc_id private_scope sg_rds_shop
    ∷ create_security_group vpc_id private_scope sg_rds_payments
    ∷ create_security_group vpc_id private_scope sg_mq
    ∷ []

unfoldable pub foundation_rules : GroupConfig → List Rule
foundation_rules config =
    create_cidr_rule config.public_ingress_ipv4_cidrs (tcp_into sg_alb alb_http alb_http)
    ∷ create_cidr_rule config.public_ingress_ipv4_cidrs (tcp_into sg_alb alb_https alb_https)
    ∷ create_source_security_group_rule sg_alb
        (tcp_into sg_ecs ecs_dynamic_host_port_range_start ecs_dynamic_host_port_range_end)
    ∷ create_self_rule (tcp_into sg_ecs ecs_payments_grpc ecs_payments_grpc)
    ∷ create_self_rule (tcp_into sg_ecs ecs_shop_http ecs_shop_http)
    ∷ create_source_security_group_rule sg_ecs (tcp_into sg_rds_shop postgres postgres)
    ∷ create_source_security_group_rule sg_ecs (tcp_into sg_rds_payments postgres postgres)
    ∷ create_source_security_group_rule sg_ecs
        (tcp_into sg_mq rabbitmq_amqp_port rabbitmq_amqp_port)
    ∷ map (egress_all config.network) (sg_alb ∷ sg_ecs ∷ sg_rds_shop ∷ sg_rds_payments ∷ sg_mq ∷ [])

abbrev pub foundation_of : RowId → GroupConfig → Foundation
foundation_of vpc_id config = record {
  groups = foundation_groups vpc_id;
  rules = foundation_rules config;
}

unfoldable pub create_foundation_security_groups :
    NetworkConfig → Option (List RowId) → RowId → Option Foundation
create_foundation_security_groups network stored vpc_id =
    Option.map (foundation_of vpc_id) (get_foundation_security_group_config network stored)
