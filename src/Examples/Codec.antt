-- ===== src/Examples/Codec.antt =====
-- An encoding that can be decoded: each text behind its length, each integer behind its sign.
use logyard_apps.Prelude.{zero, suc, ◌≡◌, refl, ap, [], ◌∷◌, ◌++◌, length, take, drop, true}
use logyard_apps.Prelude.Text.{Text}
use logyard_apps.Prelude.Int.{ℤ, pos, negsuc}
use logyard_apps.Prelude.Run.{ok}
use logyard_apps.Common.{zero_common}
use logyard_apps.Sieve.Event.{Event}
use logyard_apps.Sieve.Service.{Message}
use logyard_apps.Timeline.{TimelineEvent, Json}
use logyard_apps.Timeline.Monitor.RoundTrip.{KeepsTimeline}

put_text : Text → Text → Text
put_text t rest = length t ∷ (t ++ rest)

get_text : Text → Text × Text
get_text [] = ([], [])
get_text (n ∷ s) = (take n s, drop n s)

take-append : (t rest : Text) → take (length t) (t ++ rest) ≡ t
take-append [] rest = refl
take-append (c ∷ t) rest = ap (◌∷◌ c) (take-append t rest)

drop-append : (t rest : Text) → drop (length t) (t ++ rest) ≡ rest
drop-append [] rest = refl
drop-append (c ∷ t) rest = drop-append t rest

get-put_text : (t rest : Text) → get_text (put_text t rest) ≡ (t, rest)
unfolding put_text get_text
get-put_text t rest = rw (take-append t rest, drop-append t rest) refl

put_int : ℤ → Text → Text
put_int (pos n) rest = 0 ∷ n ∷ rest
put_int (negsuc n) rest = 1 ∷ n ∷ rest

get_int : Text → ℤ × Text
get_int (zero ∷ n ∷ rest) = (pos n, rest)
get_int (suc s ∷ n ∷ rest) = (negsuc n, rest)
get_int _ = (pos 0, [])

get-put_int : (x : ℤ) (rest : Text) → get_int (put_int x rest) ≡ (x, rest)
unfolding put_int get_int
get-put_int (pos n) rest = refl
get-put_int (negsuc n) rest = refl

pub put_timeline : TimelineEvent → Text
put_timeline t =
    put_text t.app.guid (put_text t.app.space (put_text t.app.name (put_int t.instance_index [])))

pub get_timeline : Text → TimelineEvent
get_timeline s =
    let (guid, s1) = get_text s in
    let (space, s2) = get_text s1 in
    let (name, s3) = get_text s2 in
    let (index, s4) = get_int s3 in
    record { app = record { guid = guid; space = space; name = name }; instance_index = index }

get-put_timeline : (t : TimelineEvent) → get_timeline (put_timeline t) ≡ t
unfolding put_timeline get_timeline
get-put_timeline t = simp (get-put_text, get-put_int)

pub put_event : Event TimelineEvent → Text
put_event e =
    put_text e.desc (put_text e.process (put_int e.common.unix_time (put_timeline e.info)))

pub get_event : Text → Event TimelineEvent
get_event s =
    let (desc, s1) = get_text s in
    let (process, s2) = get_text s1 in
    let (unix_time, s3) = get_int s2 in
    record {
      type = [];
      desc = desc;
      severity = [];
      info = get_timeline s3;
      process = process;
      common = record zero_common { unix_time = unix_time };
    }

abbrev pub timeline_json : Json TimelineEvent
timeline_json = record {
  info_of = λ app index. record { app = app; instance_index = index };
  marshal_event = λ e. ok (put_event e);
  unmarshal_event = λ s. ok (get_event s);
  marshal_info = λ t. ok (put_timeline t);
  unmarshal_timeline = λ s. ok (get_timeline s);
}

pub timeline_json-KeepsTimeline : KeepsTimeline timeline_json (λ s. true)
unfolding put_event get_event
timeline_json-KeepsTimeline = record {
  keeps = λ e app index h valid time exact. record {
    text = put_event e;
    encoded = refl;
    back = get_event (put_event e);
    decoded = refl;
    desc = simp get-put_text;
    process = simp get-put_text;
    unix_time = simp (get-put_text, get-put_int);
    bytes = put_timeline (get_event (put_event e)).info;
    info_encoded = refl;
    info_decoded = simp (get-put_text, get-put_int, get-put_timeline, h);
  };
}

pub put_record : Message → Text
put_record m = put_text m.name (
    put_text m.common.text (
      put_text m.common.node_id (
        put_int m.common.unix_time (
          put_text m.common.human_time
            (put_text m.common.syslog.priority (put_text m.common.syslog.time []))))))

pub get_record : Text → Message
get_record s =
    let (name, s1) = get_text s in
    let (text, s2) = get_text s1 in
    let (node_id, s3) = get_text s2 in
    let (unix_time, s4) = get_int s3 in
    let (human_time, s5) = get_text s4 in
    let (priority, s6) = get_text s5 in
    let (time, s7) = get_text s6 in
    record {
      name = name;
      common = record {
        text = text;
        node_id = node_id;
        unix_time = unix_time;
        human_time = human_time;
        syslog = record { priority = priority; time = time };
      };
    }

pub get-put_record : (m : Message) → get_record (put_record m) ≡ m
unfolding put_record get_record
get-put_record m = simp (get-put_text, get-put_int)
