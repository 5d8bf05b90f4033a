-- ===== src/Loading.antt =====
-- How the programs load their configurations: apptail/config.go, apptail/util/brandname.go,
-- systail/config.go, sieve/cmd/logyard_sieve/config.go and applog_endpoint/config/config.go. The
-- configuration server is a parameter; what it does with a configuration is its own.
use logyard_apps.Prelude.{Option, none, some}
use logyard_apps.Prelude.Text.{Text, codes}
use logyard_apps.Prelude.Int.{ℤ}
use logyard_apps.Prelude.Dict.{Dict}
use logyard_apps.Prelude.Run.{Result, Run, done, crash, bad_assertion, or_fatal, ◌>>=◌}

-- A value in an `interface{}`, with its dynamic type.
pub data Held (C : Type 0) : Type 0 where
  by_value : C → Held C
  by_pointer : C → Held C

-- `.(*Config)`; the interface may be nil.
abbrev pub asserted : {C : Type 0} → Option (Held C) → Run C
asserted none = crash bad_assertion
asserted (some (by_value c)) = crash bad_assertion
asserted (some (by_pointer c)) = done c

-- Package server: a new configuration for a group, and what it holds.
pub record Server (X C : Type 0) : Type 0 where
  pub new_config : Text → Held C → Result X
  pub get_config : X → Option (Held C)

pub record BrandConfig : Type 0 where
  pub name : Text  -- of `Info`

pub record SystailConfig : Type 0 where
  pub max_record_size : ℤ
  pub log_files : Dict Text

pub record EndpointConfig : Type 0 where
  pub drain_lifetime : Text
  pub hostname : Text

module _ {X C : Type 0} (server : Server X C) (zero_config : C) where
  -- `GetConfig` of each program.
  unfoldable pub get_config : X → Run C
  get_config x = asserted (server.get_config x)

  unfoldable pub load_apptail_config : Run X
  load_apptail_config = or_fatal (server.new_config (codes "apptail") (by_value zero_config))

  unfoldable pub load_systail_config : Run X
  load_systail_config = or_fatal (server.new_config (codes "systail") (by_value zero_config))

  unfoldable pub load_sieve_config : Run X
  load_sieve_config = or_fatal (server.new_config (codes "logyard_sieve") (by_value zero_config))

  unfoldable pub load_endpoint_config : Run X
  load_endpoint_config =
      or_fatal (server.new_config (codes "applog_endpoint") (by_value zero_config))

  unfoldable pub load_brand_config : Run X
  load_brand_config =
      or_fatal (server.new_config (codes "cloud_controller_ng") (by_value zero_config))

unfoldable pub get_brand_name : {X : Type 0} → Server X BrandConfig → X → Run Text
unfolding get_config
get_brand_name server x = do c ← asserted (server.get_config x); done c.name
