-- ===== src/Examples/Pools.antt =====
-- The theorems on internal/pkg/network/pool.go at two pools, of which one is taken.
use icn_nodus.Common.{◌≡◌, refl, true, false, List, [], ◌∷◌}
use icn_nodus.Api.{NetworkPool}
use icn_nodus.Effect.{ok, Env, World, done, effects}
use icn_nodus.Effect.Emits.{world_of}
use icn_nodus.Pool.{
  create_network_object, update_network_pool, choose_pool, use_choice, allocate,
  create_network_from_pool,
}
use icn_nodus.Pool.Allocation.{Found, choose_pool-Found}
use icn_nodus.Pool.Recording.{Allocated, create_network_from_pool-Allocated}
use icn_nodus.Examples.{printing, fresh}

abbrev pools : List NetworkPool
pools =
    record {
      pool_nr = 1;
      network = record {
        name = "red";
        subnet = "10.1.0.0/16";
        gateway = "10.1.0.1/16";
        exclude_ips = "";
      };
      available = false;
    }
    ∷ record {
      pool_nr = 2;
      network = record {
        name = "nil";
        subnet = "10.2.0.0/16";
        gateway = "10.2.0.1/16";
        exclude_ips = "";
      };
      available = true;
    }
    ∷ []

choose_pool-Found_example : Found "blue" pools (choose_pool "blue" pools)
choose_pool-Found_example = choose_pool-Found "blue" pools

abbrev pooled : Env
pooled = record (printing "") { pools = λ trace. ok pools }

abbrev allocated_world : World
allocated_world = world_of (create_network_from_pool "blue" pooled fresh)

allocated_run : create_network_from_pool "blue" pooled fresh ≡ done tt allocated_world
unfolding create_network_from_pool allocate choose_pool use_choice create_network_object
    update_network_pool effects
allocated_run = refl

create_network_from_pool-Allocated_example : Allocated "blue" pooled [] allocated_world.trace
create_network_from_pool-Allocated_example =
    create_network_from_pool-Allocated "blue" pooled fresh allocated_world allocated_run
