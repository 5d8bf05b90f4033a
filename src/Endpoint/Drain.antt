-- ===== src/Endpoint/Drain.antt =====
-- applog_endpoint/drain/app_log_drain.go and drain/orphan.go: the drain of a tail session, and the
-- removal of the drains that earlier processes left. Logyard's store of drains, the line server and
-- the time package are parameters.
pub mod Names
use logyard_apps.Prelude.{
  ℕ, zero, suc, ◌+◌, ◌/◌, ◌%◌, ◌≡◌, Bool, true, false, Option, none, some, List, [], ◌∷◌, ◌++◌, ltb,
  if◌then◌else◌,
}
use logyard_apps.Prelude.Decimal.{show_ℕ}
use logyard_apps.Prelude.Text.{Text, codes, has_prefix}
use logyard_apps.Prelude.Int.{ℤ}
use logyard_apps.Prelude.Dict.{Dict, get}
use logyard_apps.Prelude.Run.{Error, Result, ok, err}

-- What the drains use: `S` is the state of Logyard's store and of the line servers, `V` a server.
pub record Logyard (S V : Type 0) : Type 0 where
  pub drains : S → Dict Text  -- `logyard.GetConfig().Drains`
  pub add_drain : Text → Text → S → Option Error × S
  pub delete_drain : Text → S → Option Error × S
  pub construct_drain_uri : Text → Text → List Text → Result Text
  pub new_line_server : Text → Text → Result V
  pub get_udp_port : V → Result ℕ
  pub start_server : V → S → S
  pub kill : V → Error → S → S
  pub local_ip : Text
  pub parse_duration : Text → Result ℤ
  pub drain_lifetime : Text  -- of the configuration

pub record AppLogDrain (V : Type 0) : Type 0 where
  pub app_guid : Text
  pub srv : V
  pub port : ℕ
  pub lifetime : ℤ
  pub drain_name : Text

abbrev pub drain_prefix : Text
drain_prefix = codes "tmp.applog_endpoint"

abbrev pub lineserver_proto : Text
lineserver_proto = codes "udp"

abbrev pub drain_name_of : Text → Text
drain_name_of app_guid = drain_prefix ++ codes "." ++ app_guid

-- The keys of the application's log begin with it.
abbrev pub filter_of : Text → Text
filter_of app_guid = codes "apptail." ++ app_guid

module _ {V : Type 0} where
  make_drain : Text → V → Result ℕ → Result ℤ → Result (AppLogDrain V)
  make_drain app_guid srv (err e) lifetime = err e
  make_drain app_guid srv (ok port) (err e) =
      err (codes "Invalid duration value (" ++ e ++ codes ") for drain_lifetime")
  make_drain app_guid srv (ok port) (ok lifetime) = ok (record {
    app_guid = app_guid;
    srv = srv;
    port = port;
    lifetime = lifetime;
    drain_name = drain_name_of app_guid;
  })

module _ {S V : Type 0} (ly : Logyard S V) where
  with_server : Text → Result V → Result (AppLogDrain V)
  unfolding make_drain
  with_server app_guid (err e) = err e
  with_server app_guid (ok srv) =
      make_drain app_guid srv (ly.get_udp_port srv) (ly.parse_duration ly.drain_lifetime)

  unfoldable pub new_app_log_drain : Text → Result (AppLogDrain V)
  unfolding with_server
  new_app_log_drain app_guid =
      with_server app_guid (ly.new_line_server lineserver_proto (ly.local_ip ++ codes ":0"))

  add_uri : Text → Result Text → S → Option Error × S
  add_uri name (err e) s = (some e, s)
  add_uri name (ok uri) s = ly.add_drain name uri s

  unfoldable pub add_drain : AppLogDrain V → S → Option Error × S
  unfolding add_uri
  add_drain d s =
      let uri = lineserver_proto ++ codes "://" ++ ly.local_ip ++ codes ":" ++ show_ℕ d.port in
      add_uri d.drain_name (ly.construct_drain_uri d.drain_name uri (filter_of d.app_guid ∷ [])) s

  -- The channel of the server is handed over where there is no error. The goroutine that stops the
  -- drain after its lifetime is `lifetime_over`, which Endpoint/Sessions lets come at any time.
  unfoldable pub start : AppLogDrain V → S → Option Error × S
  start d s = add_drain d (ly.start_server d.srv s)

  -- A failed removal is only logged.
  unfoldable pub stop : AppLogDrain V → Error → S → S
  stop d reason s = let (e, s') = ly.delete_drain d.drain_name s in ly.kill d.srv reason s'

  -- The goroutine of `Start` when the lifetime of the drain is over.
  unfoldable pub lifetime_over : Text → AppLogDrain V → S → S
  lifetime_over shown d s = stop d (codes "Timed out " ++ shown) s

  -- The loop of `RemoveOrphanedDrains`; a failed removal is only logged.
  remove_each : Dict Text → S → S
  remove_each [] s = s
  remove_each ((name, uri) ∷ rest) s =
      remove_each rest (if has_prefix name drain_prefix then (ly.delete_drain name s).1 else s)

  unfoldable pub remove_orphaned_drains : S → S
  unfolding remove_each
  remove_orphaned_drains s = remove_each (ly.drains s) s
