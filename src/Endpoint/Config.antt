-- ===== src/Endpoint/Config.antt =====
-- applog_endpoint/config/shim_mock.go: the server's configuration in unit tests, where redis is not
-- there, and the names that both shims give to the endpoint. `C` is the type of a configuration.
use logyard_apps.Prelude.{Option, none, some, []}
use logyard_apps.Prelude.Text.{Text, codes}
use logyard_apps.Prelude.Run.{ok}
use logyard_apps.Loading.{Held, by_pointer, Server, EndpointConfig}

-- The fields that the mock sets.
pub record ConfDis (C : Type 0) : Type 0 where
  pub root_key : Text
  pub config : C

pub record ServerConfig (C : Type 0) : Type 0 where
  pub name : Text
  pub conf_dis : ConfDis C

module _ {C : Type 0} where
  abbrev pub set_config : C → ServerConfig C → ServerConfig C
  set_config config g = record g { conf_dis = record g.conf_dis { config = config } }

  -- Of a nil pointer too.
  abbrev pub get_config : Option (ServerConfig C) → Option C
  get_config none = none
  get_config (some g) = some g.conf_dis.config

  -- The error is always nil.
  abbrev pub new_config : Text → C → ServerConfig C
  new_config group s = record { name = group; conf_dis = record { root_key = group; config = s } }

pub record ClusterConfig : Type 0 where
  pub mbus_ip : Text
  pub endpoint : Text

abbrev pub local_cluster : ClusterConfig
local_cluster = record { mbus_ip = codes "127.0.0.1"; endpoint = codes "127.0.0.1" }

-- The variable `clusterConfig` is set once, at the first call.
unfoldable pub get_cluster_config : Option ClusterConfig → ClusterConfig × Option ClusterConfig
get_cluster_config none = (local_cluster, some local_cluster)
get_cluster_config (some config) = (config, some config)

abbrev pub node_ip_must : Text
node_ip_must = codes "127.0.0.1"

-- `init` gives the package a configuration.
abbrev pub initial_config : ServerConfig (Held EndpointConfig)
initial_config = new_config (codes "a") (by_pointer (record { drain_lifetime = []; hostname = [] }))

-- The mock as the configuration server of the endpoint.
abbrev pub mock : Server (ServerConfig (Held EndpointConfig)) EndpointConfig
mock = record {
  new_config = λ group held. ok (new_config group held);
  get_config = λ g. get_config (some g);
}
