-- ===== src/Infra/Chains.antt =====
-- Who can connect to whom under the rules of the groups, one connection and chains of them.
use rd_shop_backend.Base.{
  ℕ, ◌≡◌, ◌≤◌, ◌⊎◌, refl, Bool, true, false, ◌&&◌, Option, none, some, List, [], ◌∷◌, arith, ◌==◌,
  leb, any, RowId, ◌↔◌,
}
use rd_shop_backend.Infra.{
  GroupName, sg_alb, sg_ecs, sg_rds_shop, sg_rds_payments, sg_mq, Direction, ingress, egress,
  Protocol, tcp_protocol, all_protocols, Source, cidr_blocks, self_source, source_security_group_id,
  Rule, NetworkConfig, GroupConfig, Foundation, get_foundation_security_group_config,
  foundation_rules, default_any_ipv4_cidr, create_foundation_security_groups,
}

-- The one who connects: an address, with the group of the host if it is one of ours
pub record Peer : Type 0 where
  pub address : RowId
  pub group : Option GroupName

abbrev pub number_of : GroupName → ℕ
number_of sg_alb = 0
number_of sg_ecs = 1
number_of sg_rds_shop = 2
number_of sg_rds_payments = 3
number_of sg_mq = 4

abbrev pub same_group : GroupName → GroupName → Bool
same_group g h = number_of g == number_of h

abbrev pub is_member : Option GroupName → GroupName → Bool
is_member none g = false
is_member (some h) g = same_group h g

abbrev pub is_ingress : Direction → Bool
is_ingress ingress = true
is_ingress egress = false

abbrev pub covers : Protocol → ℕ → ℕ → ℕ → Bool
covers tcp_protocol first last port = leb first port && leb port last
covers all_protocols first last port = true

module _ (in_block : RowId → RowId → Bool) where
  abbrev pub comes_from : Peer → GroupName → Source → Bool
  comes_from p g (cidr_blocks blocks) = any (λ b. in_block b p.address) blocks
  comes_from p g self_source = is_member p.group g
  comes_from p g (source_security_group_id h) = is_member p.group h

  -- A rule that is documented to let a TCP connection in
  abbrev pub lets_in : Peer → GroupName → ℕ → Rule → Bool
  lets_in p g port r =
      is_ingress (r.args).direction
      && same_group (r.args).security_group_id g
      && covers (r.args).protocol (r.args).from_port (r.args).to_port port
      && comes_from p g r.source

  -- The connections that are meant to be possible
  abbrev pub IsTrusted : List RowId → Peer → GroupName → ℕ → Type 0
  IsTrusted blocks p sg_alb port =
      (any (λ b. in_block b p.address) blocks ≡ true) × ((port ≡ 80) ⊎ (port ≡ 443))
  IsTrusted blocks p sg_ecs port =
      ((is_member p.group sg_alb ≡ true) × (32768 ≤ port) × (port ≤ 65535))
      ⊎ ((is_member p.group sg_ecs ≡ true) × ((port ≡ 5001) ⊎ (port ≡ 8080)))
  IsTrusted blocks p sg_rds_shop port = (is_member p.group sg_ecs ≡ true) × (port ≡ 5432)
  IsTrusted blocks p sg_rds_payments port = (is_member p.group sg_ecs ≡ true) × (port ≡ 5432)
  IsTrusted blocks p sg_mq port = (is_member p.group sg_ecs ≡ true) × (port ≡ 5672)

any_in :
    (in_block : RowId → RowId → Bool) (config : GroupConfig) (p : Peer) (g : GroupName) (port : ℕ)
    → (any (lets_in in_block p g port) (foundation_rules config) ≡ true)
      ↔ IsTrusted in_block config.public_ingress_ipv4_cidrs p g port
unfolding foundation_rules
any_in in_block config p sg_alb port = ground arith
any_in in_block config p sg_ecs port = ground arith
any_in in_block config p sg_rds_shop port = ground arith
any_in in_block config p sg_rds_payments port = ground arith
any_in in_block config p sg_mq port = ground arith

-- The blocks that are public: those of the stack's configuration, or every address.
abbrev pub public_blocks : Option (List RowId) → List RowId
public_blocks none = default_any_ipv4_cidr ∷ []
public_blocks (some blocks) = blocks

abbrev accepted : NetworkConfig → Option (List RowId) → GroupConfig
accepted network stored = record {
  network = network;
  public_ingress_ipv4_cidrs = public_blocks stored;
}

created :
    (network : NetworkConfig) (stored : Option (List RowId)) (vpc_id : RowId) (f : Foundation)
    → create_foundation_security_groups network stored vpc_id ≡ some f
    → f.rules ≡ foundation_rules (accepted network stored)
unfolding create_foundation_security_groups get_foundation_security_group_config
created network none vpc_id f e = ground (arith, e)
created network (some []) vpc_id f e = ground (arith, e)
created network (some (c ∷ cs)) vpc_id f e = ground (arith, e)

-- The rules that are created let in exactly the connections that are meant to be possible: to the load
-- balancer on 80 and 443 from the public blocks, to the hosts of ECS on a dynamic port from the load
-- balancer and on the ports of the shop and of payments from themselves, to the two databases and the
-- broker on their port from the hosts of ECS, and no other, if the configuration of the stack is
-- accepted.
create_foundation_security_groups-IsTrusted :
    (in_block : RowId → RowId → Bool) (network : NetworkConfig) (stored : Option (List RowId))
    (vpc_id : RowId) (f : Foundation)
    → create_foundation_security_groups network stored vpc_id ≡ some f
    → (p : Peer) (g : GroupName) (port : ℕ)
    → (any (lets_in in_block p g port) f.rules ≡ true)
      ↔ IsTrusted in_block (public_blocks stored) p g port
create_foundation_security_groups-IsTrusted in_block network stored vpc_id f e p g port =
    rw (created network stored vpc_id f e) (any_in in_block (accepted network stored) p g port)

-- What a group admits, and the address of a host of a group
module _ (admits : List Rule → Peer → GroupName → ℕ → Bool) (address_of : GroupName → RowId) where
  -- A chain of admitted connections from an outside host, each opened by the host that the one before
  -- it reached: the group of the last host, and the groups on the way, the last first
  pub data Reached (rules : List Rule) : GroupName → List GroupName → Type 0 where
    enter :
        (address : RowId) (g : GroupName) (port : ℕ)
        → admits rules (record { address = address; group = none }) g port ≡ true
        → Reached rules g (g ∷ [])
    hop :
        (g h : GroupName) (port : ℕ) (way : List GroupName)
        → Reached rules g way
        → admits rules (record { address = address_of g; group = some g }) h port ≡ true
        → Reached rules h (h ∷ way)

abbrev pub Passes : GroupName → List GroupName → Type 0
Passes g way = any (same_group g) way ≡ true

-- The groups that a way to a group has to pass
abbrev pub IsGuarded : GroupName → List GroupName → Type 0
IsGuarded sg_alb way = Passes sg_alb way
IsGuarded sg_ecs way = Passes sg_alb way × Passes sg_ecs way
IsGuarded sg_rds_shop way = Passes sg_alb way × Passes sg_ecs way
IsGuarded sg_rds_payments way = Passes sg_alb way × Passes sg_ecs way
IsGuarded sg_mq way = Passes sg_alb way × Passes sg_ecs way

enter-IsGuarded :
    (in_block : RowId → RowId → Bool) (blocks : List RowId) (address : RowId) (g : GroupName)
    (port : ℕ)
    → IsTrusted in_block blocks (record { address = address; group = none }) g port
    → IsGuarded g (g ∷ [])
enter-IsGuarded in_block blocks address sg_alb port t = refl
enter-IsGuarded in_block blocks address sg_ecs port t = ground arith
enter-IsGuarded in_block blocks address sg_rds_shop port t = ground arith
enter-IsGuarded in_block blocks address sg_rds_payments port t = ground arith
enter-IsGuarded in_block blocks address sg_mq port t = ground arith

hop-IsGuarded :
    (in_block : RowId → RowId → Bool) (blocks : List RowId) (address : RowId) (g h : GroupName)
    (port : ℕ) (way : List GroupName)
    → IsTrusted in_block blocks (record { address = address; group = some g }) h port
    → IsGuarded g way
    → IsGuarded h (h ∷ way)
hop-IsGuarded in_block blocks address g sg_alb port way t k = refl
hop-IsGuarded in_block blocks address sg_alb sg_ecs port way t k = ground arith
hop-IsGuarded in_block blocks address sg_ecs sg_ecs port way t k = ground arith
hop-IsGuarded in_block blocks address sg_ecs sg_rds_shop port way t k = ground arith
hop-IsGuarded in_block blocks address sg_ecs sg_rds_payments port way t k = ground arith
hop-IsGuarded in_block blocks address sg_ecs sg_mq port way t k = ground arith
hop-IsGuarded in_block blocks address g h port way t k = ground arith

-- A chain of connections from outside reaches the hosts of ECS only through the load balancer, and a
-- database or the broker only through the load balancer and the hosts of ECS, whoever is in control of
-- the hosts on the way, if the configuration of the stack is accepted and a group admits no connection
-- that none of its rules lets in.
pub Reached-IsGuarded :
    (in_block : RowId → RowId → Bool) (admits : List Rule → Peer → GroupName → ℕ → Bool)
    (address_of : GroupName → RowId)
    → ((rs : List Rule) (p : Peer) (g : GroupName) (port : ℕ)
        → admits rs p g port ≡ true
        → any (lets_in in_block p g port) rs ≡ true)
    → (network : NetworkConfig) (stored : Option (List RowId)) (vpc_id : RowId) (f : Foundation)
    → create_foundation_security_groups network stored vpc_id ≡ some f
    → (g : GroupName) (way : List GroupName) → Reached admits address_of f.rules g way
    → IsGuarded g way
Reached-IsGuarded in_block admits address_of denied network stored vpc_id f e = go
  where
    trusted :
        (p : Peer) (g : GroupName) (port : ℕ)
        → admits f.rules p g port ≡ true
        → IsTrusted in_block (public_blocks stored) p g port
    trusted p g port a =
        (create_foundation_security_groups-IsTrusted in_block network stored vpc_id f e p g port).0
          (denied f.rules p g port a)

    go :
        (g : GroupName) (way : List GroupName)
        → Reached admits address_of f.rules g way
        → IsGuarded g way
    go g _ (enter address _ port a) =
        enter-IsGuarded in_block (public_blocks stored) address g port (trusted _ g port a)
    go h _ (hop g _ port way r a) =
        hop-IsGuarded in_block (public_blocks stored) (address_of g) g h port way
          (trusted _ h port a) (go g way r)
