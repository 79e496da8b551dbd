-- ===== src/Examples.antt =====
-- Concrete environments and inputs, for the runs of the theorems at concrete data in the modules below.
mod Policies
mod Networks
mod Controllers
mod Subnets
mod Pools
pub mod Chains
mod ChainRuns
mod ChainWaits
mod Notifications
mod Agents
mod Attachments
use Prim.Native.String
use icn_nodus.Common.{String, true, false, none, some, [], ◌∷◌, ◌==◌}
use icn_nodus.Api.Cluster.{Request, Reply}
use icn_nodus.Effect.{external, Result, ok, err, Env, World}
use icn_nodus.Policy.{tcp, int, NetworkPolicy}

-- No client library answers.
abbrev pub refuse_all : (r : Request) → Result (Reply r)
refuse_all r = err (external "refused")

-- Every process succeeds and prints the given text; no name parses; there is one pod, and no address
-- pool.
abbrev pub printing : String → Env
printing out = record {
  exec = λ trace k path args. record { stdout = out; stderr = ""; error = none };
  getenv = λ name. "";
  draw = λ trace k. 7;
  parse_cidr = λ s. none;
  parse_ip = λ s. none;
  ip_text = λ bytes. "";
  pods = λ trace options. ok (
      record {
        name = "web";
        namespace = "default";
        node_name = "node1";
        host_network = false;
        pod_ip = "10.0.0.5";
        annotations = [];
        deleting = false;
        labels = none;
        phase = "Running";
        container_statuses = [];
      }
      ∷ []);
  conf_exists = λ trace. ok true;
  pools = λ trace. ok [];
  created = λ trace sn. none;
  watched = λ trace name. ok "Created";
  updated = λ trace nps. none;
  networks = λ trace name. ok none;
  provider_networks = λ trace name. ok none;
  chainings = λ trace name. ok none;
  pod_named = λ trace name namespace. ok none;
  parse_networks = λ s. none;
  written = λ trace e. none;
  links = λ trace. [];
  ranged = λ trace labels. labels;
  agents_ranged = λ trace names. names;
  equal_fold = λ s t. s == t;
  to_lower = λ s. s;
  sha1 = λ s. "0123456789";
  fnv = λ s. 42;
  cluster = λ trace r. refuse_all r;
  selector_text = λ labels. "app=web";
  json_items = λ s. none;
  json_list = λ items. "[]";
  rounds = 3;
}

abbrev pub fresh : World
fresh = record { trace = []; gateway_cache = []; controller = true; agents = [] }

abbrev pub sample : NetworkPolicy
sample = record {
  name = "p";
  namespace = "default";
  pod_selector = [];
  policy_types = [];
  ingress_rules =
      record {
        ports = record { protocol = some tcp; port = some (int 80) } ∷ [];
        peers =
            record {
              ip_block = some (record { cidr = "10.1.0.0/16"; except = "10.1.2.0/24" ∷ [] });
              namespace_selector = none;
              pod_selector = none;
            }
            ∷ [];
      }
      ∷ [];
  egress_rules = [];
}
