-- ===== src/Endpoint/Router.antt =====
-- applog_endpoint/router.go: what the endpoint registers with the router. The configuration and the
-- address of the node are arguments.
use logyard_apps.Prelude.{ℕ, List, [], ◌∷◌, ◌++◌, drop, length, if◌then◌else◌}
use logyard_apps.Prelude.Text.{Text, codes, ◌==◌, has_prefix}

pub record RouterRegisterInfo : Type 0 where
  pub host : Text
  pub port : ℕ
  pub uris : List Text
  pub component : Text

abbrev pub port : ℕ
port = 5722

abbrev pub component : Text
component = codes "websocket_endpoint"

-- strings.Replace(s, old, new, 1), where `old` is not empty.
unfoldable pub replace_first : Text → Text → Text → Text
replace_first [] old new = []
replace_first (c ∷ s) old new =
    let rest = c ∷ replace_first s old new in
    if has_prefix (c ∷ s) old then new ++ drop (length old) (c ∷ s) else rest

unfoldable pub get_applog_endpoint_uri : Text → Text → Text
get_applog_endpoint_uri hostname endpoint =
    if hostname == [] then replace_first endpoint (codes "api.") (codes "logs.") else hostname

unfoldable pub new_router_register_info : Text → Text → Text → RouterRegisterInfo
new_router_register_info node_ip hostname endpoint = record {
  host = node_ip;
  port = port;
  uris = get_applog_endpoint_uri hostname endpoint ∷ [];
  component = component;
}

-- What `NATS` was told, the last first, by subject. A message of `router.start` is only logged.
abbrev pub Told : Type 0
Told = List (Text × RouterRegisterInfo)

-- The configuration is read again each time: the node's address, the hostname and the endpoint.
unfoldable pub router_advertise : Text × Text × Text → Told → Told
router_advertise (node_ip, hostname, endpoint) told =
    (codes "router.register", new_router_register_info node_ip hostname endpoint) ∷ told

-- The registration at the start, for the first configuration, and one for each start of the router,
-- for the configuration of that moment.
unfoldable pub router_main : Text × Text × Text → List (Text × Text × Text) → Told → Told
router_main config [] told = router_advertise config told
router_main config (next ∷ rest) told = router_main next rest (router_advertise config told)
