-- ===== src/Examples/InstanceRuns.antt =====
-- An instance whose environment names two files, on a file system without links.
use logyard_apps.Prelude.{
  ◌≡◌, refl, arith, ℕ, ◌*◌, ◌^◌, true, false, none, some, List, [], ◌∷◌, ◌++◌, map, All, ltb,
  if◌then◌else◌,
}
use logyard_apps.Prelude.Text.{has_prefix, Text, codes, ◌==◌, has_prefix}
use logyard_apps.Prelude.Int.{ℤ, pos}
use logyard_apps.Prelude.Dict.{Dict, get, put, delete}
use logyard_apps.Prelude.Run.{ok, done}
use logyard_apps.Common.{new_message_common}
use logyard_apps.Tracker.{Tracker, instances_of, update}
use logyard_apps.Tracker.Spec.{stored}
use logyard_apps.Sieve.Event.{Published, push}
use logyard_apps.Instances.Started.{
  Moment, new_instance, tail_returned, starts, check_instance_and_update, delete_instance,
}
use logyard_apps.Instances.Limit.{skipping_much, get_read_limit, get_read_limit_lem}
use logyard_apps.Instances.Files.{
  Paths, Instance, contents, get_log_files, get_docker_app_env, listed_files, from_parts,
  add_entries, secure_each, split, split_two,
}
use logyard_apps.Instances.Files.Secure.{IsBelow, get_log_files-IsBelow}
use logyard_apps.Instances.Line.{Node, publish, publish_line, publish_line_as}
use logyard_apps.Instances.Line.Encoding.{encoded, key_of}
use logyard_apps.Instances.Tail.{Feed, line_read, stopped, start_of, from_cached, read_from_tail}
use logyard_apps.Instances.Tail.Resumed.{last_offset, start_of-read_from_tail}
use logyard_apps.Instances.Tail.Publishing.{lines_read, read_from_tail-publishes}

abbrev moments : List Moment
moments =
    new_instance (codes "c1")
    ∷ new_instance (codes "c1")
    ∷ tail_returned (codes "c1")
    ∷ new_instance (codes "c1")
    ∷ []

started_twice : starts (codes "c1") moments 0 [] ≡ 2
unfolding starts check_instance_and_update delete_instance ◌==◌ get put delete
started_twice = refl

not_empty : (codes "app.log" == []) ≡ false
unfolding ◌==◌
not_empty = refl

get_read_limit_lem_example :
    get_read_limit (pos 1) (λ f. ok (pos 2000000)) (codes "app") (codes "app.log") ≡ (
      if ltb (1 * 2 ^ 20) 2000000
      then done
          (ok (pos (1 * 2 ^ 20)), skipping_much (codes "app") (pos 2000000) (pos (1 * 2 ^ 20)) ∷ [])
      else done (ok (pos 2000000), []))
get_read_limit_lem_example =
    get_read_limit_lem 1 2000000 (λ f. ok (pos 2000000)) (codes "app") (codes "app.log")
      (omega arith) (omega arith) not_empty refl

abbrev concat : List Text → Text
concat [] = []
concat (t ∷ ts) = t ++ concat ts

abbrev variable : Text
variable = codes "a=x:b=/y"

abbrev pub plain : Paths
plain = record {
  open_and_read = λ path. contents variable;
  join = concat;
  abs = ok;
  eval_symlinks = ok;
  unmarshal = λ bytes. ok ((codes "STACKATO_LOG_FILES", bytes) ∷ []);
}

abbrev pub app : Instance
app = record {
  app_guid = codes "a1";
  app_name = codes "shop";
  app_space = codes "prod";
  type = codes "app";
  index = pos 0;
  docker_id = codes "0123456789abcdef";
  root_path = codes "/r";
  log_files = [];
  docker_streams = false;
}

abbrev two_files : Dict Text
two_files = (codes "a", codes "/r/home/stackato/x") ∷ (codes "b", codes "/r/y") ∷ []

found_files : get_log_files plain app ≡ done (two_files, [])
unfolding get_log_files listed_files get_docker_app_env from_parts add_entries split split_two
    secure_each has_prefix get put ◌==◌
found_files = refl

get_log_files-IsBelow_example : All (IsBelow plain (codes "/r")) two_files
get_log_files-IsBelow_example = get_log_files-IsBelow plain app two_files [] found_files

abbrev pub node : Node ℕ
node = record {
  clock = record { unix = pos; from_unix = λ x. 0; format = λ t layout. layout };
  marshal = λ msg. ok msg.common.text;
  valid_string = λ s. true;
  to_valid = λ s. s;
  node_id = codes "n1";
  brand_name = codes "stackato";
}

abbrev pub feed : List (Feed ℕ)
feed =
    line_read (record { text = codes "one"; time = 1; err = none }) (pos 4)
    ∷ line_read (record { text = codes "two"; time = 2; err = none }) (pos 8)
    ∷ stopped
    ∷ []

abbrev at : ℤ → Tracker Unit
at x = record {
  medium = tt;
  cached = record { instances = (codes "c1", (codes "/r/y", record { v = x }) ∷ []) ∷ [] };
}

abbrev pub out : Published
out = (codes "apptail.a1", codes "two") ∷ (codes "apptail.a1", codes "one") ∷ []

read :
    read_from_tail node app (codes "c1") (codes "b") (codes "/r/y") feed (at (pos 0)) []
    ≡ done (at (pos 8), out)
unfolding read_from_tail publish_line publish_line_as publish new_message_common update get put ◌==◌
read = refl

was_stored : stored (instances_of (at (pos 0))) (codes "c1") (codes "/r/y") ≡ some (pos 0)
unfolding get ◌==◌
was_stored = refl

start_of-read_from_tail_example :
    start_of (at (pos 8)) (codes "c1") (codes "/r/y") (done (ok (pos 100), []))
    ≡ done (from_cached (last_offset (pos 0) feed))
start_of-read_from_tail_example =
    start_of-read_from_tail node app (codes "c1") (codes "b") (codes "/r/y") feed (at (pos 0))
      (at (pos 8)) [] out (pos 0) (done (ok (pos 100), [])) was_stored read

read_from_tail-publishes_example :
    (texts : List Text) × (map (encoded node app (codes "b")) (lines_read feed) ≡ map ok texts)
    × (out ≡ push (key_of node app (codes "b")) texts [])
read_from_tail-publishes_example =
    read_from_tail-publishes node app (codes "b") (codes "c1") (codes "/r/y") feed (at (pos 0))
      (at (pos 8)) [] out read
