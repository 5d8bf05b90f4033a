-- ===== src/Tracker/Spec.antt =====
-- What a tracker promises, without the nested maps: which instances are registered, and the offset
-- that is stored for a file of an instance.
use logyard_apps.Prelude.{
  ◌≡◌, refl, Bool, not, ◌&&◌, ◌||◌, Option, none, some, List, [], ◌∷◌, if◌then◌else◌,
}
use logyard_apps.Prelude.Text.{Text, ◌==◌}
use logyard_apps.Prelude.Int.{ℤ}
use logyard_apps.Prelude.Dict.{Dict, StringSet, contains, is_some, get}
use logyard_apps.Prelude.Run.{Run, done, ◌>>=◌}
use logyard_apps.Storage.{BoxedInt64, TailNode, Storage, offset_in}
use logyard_apps.Tracker.{
  Tracker, instances_of, register_instance, is_instance_registered, initialize_child_node, update,
  clean_up, remove, on_tick,
}

abbrev pub unbox : Option BoxedInt64 → Option ℤ
unbox none = none
unbox (some box) = some box.v

abbrev pub stored : Dict TailNode → Text → Text → Option ℤ
stored instances inst_key child_key = unbox (offset_in (get instances inst_key) child_key)

pub record View : Type 0 where
  pub registered : Text → Bool
  pub offset : Text → Text → Option ℤ

pub data Op : Type 0 where
  register : Text → Op
  initialize : Text → Text → ℤ → Op
  move : Text → Text → ℤ → Op
  drop_instance : Text → Op
  keep_only : StringSet → Op
  tick : Op

abbrev pub spec : Op → View → View
spec (register k) v = record v { registered = λ j. (k == j) || v.registered j }
spec (initialize k c x) v = record v {
  offset = λ j d.
      if (k == j) && (c == d) && v.registered k && not (is_some (v.offset k c))
      then some x
      else v.offset j d;
}
spec (move k c x) v = record v {
  offset = λ j d. if (k == j) && (c == d) && is_some (v.offset k c) then some x else v.offset j d;
}
spec (drop_instance k) v = record {
  registered = λ j. not (k == j) && v.registered j;
  offset = λ j d. if k == j then none else v.offset j d;
}
spec (keep_only ids) v = record {
  registered = λ j. contains ids j && v.registered j;
  offset = λ j d. if contains ids j then v.offset j d else none;
}
spec tick v = v

abbrev pub spec_all : List Op → View → View
spec_all [] v = v
spec_all (op ∷ ops) v = spec_all ops (spec op v)

-- The tracker `t` looks like `v` to its callers.
pub record Shows {M : Type 0} (t : Tracker M) (v : View) : Type 0 where
  pub registered : (j : Text) → is_instance_registered t j ≡ v.registered j
  pub offset : (j d : Text) → stored (instances_of t) j d ≡ v.offset j d

-- The view of a tracker itself.
module _ {M : Type 0} where
  abbrev pub own_view : Tracker M → View
  own_view t = record {
    registered = is_instance_registered t;
    offset = λ j d. stored (instances_of t) j d;
  }

  pub own_view-Shows : (t : Tracker M) → Shows t (own_view t)
  own_view-Shows t = record { registered = λ j. refl; offset = λ j d. refl }

module _ {M B : Type 0} (s : Storage M B) where
  -- The method that an operation calls.
  unfoldable pub apply : Op → Tracker M → Run (Tracker M)
  apply (register k) t = done (register_instance k t)
  apply (initialize k c x) t = done (initialize_child_node k c x t)
  apply (move k c x) t = done (update k c x t)
  apply (drop_instance k) t = remove s k t
  apply (keep_only ids) t = done (clean_up ids t)
  apply tick t = on_tick s t

  unfoldable pub apply_all : List Op → Tracker M → Run (Tracker M)
  apply_all [] t = done t
  apply_all (op ∷ ops) t = do t' ← apply op t; apply_all ops t'
