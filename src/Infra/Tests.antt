-- ===== src/Infra/Tests.antt =====
-- The theorems on the security groups at concrete inputs.
use rd_shop_backend.Base.{ℕ, ◌≡◌, refl, Bool, none, some, List, [], ◌∷◌, RowId, ◌==◌, any}
use rd_shop_backend.Infra.{
  GroupName, sg_alb, sg_ecs, sg_mq, NetworkConfig, Foundation, Rule, default_any_ipv4_cidr,
  foundation_rules, get_foundation_security_group_config, create_foundation_security_groups,
  foundation_of,
}
use rd_shop_backend.Infra.Chains.{Peer, lets_in, Reached, enter, hop, IsGuarded, Reached-IsGuarded}

abbrev network : NetworkConfig
network = record { all_traffic_port = 0; any_ipv4_cidr = default_any_ipv4_cidr }

abbrev in_block : RowId → RowId → Bool
in_block block address = block == default_any_ipv4_cidr

abbrev admits : List Rule → Peer → GroupName → ℕ → Bool
admits rules p g port = any (lets_in in_block p g port) rules

abbrev address_of : GroupName → RowId
address_of g = 7

foundation : Foundation
foundation =
    foundation_of 3
      (record { network = network; public_ingress_ipv4_cidrs = default_any_ipv4_cidr ∷ [] })

created : create_foundation_security_groups network none 3 ≡ some foundation
unfolding create_foundation_security_groups get_foundation_security_group_config foundation
created = refl

to_broker : Reached admits address_of foundation.rules sg_mq (sg_mq ∷ sg_ecs ∷ sg_alb ∷ [])
unfolding foundation foundation_rules
to_broker =
    hop sg_ecs sg_mq 5672 (sg_ecs ∷ sg_alb ∷ [])
      (hop sg_alb sg_ecs 40000 (sg_alb ∷ []) (enter 9 sg_alb 443 refl) refl) refl

Reached-IsGuarded_example : IsGuarded sg_mq (sg_mq ∷ sg_ecs ∷ sg_alb ∷ [])
Reached-IsGuarded_example =
    Reached-IsGuarded in_block admits address_of (λ rs p g port a. a) network none 3 foundation
      created sg_mq (sg_mq ∷ sg_ecs ∷ sg_alb ∷ []) to_broker
