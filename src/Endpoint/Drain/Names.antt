-- ===== src/Endpoint/Drain/Names.antt =====
-- Which drains the endpoint touches, over a store of drains that keeps its contract.
use logyard_apps.Prelude.{
  ℕ, ◌≡◌, refl, ◌∙◌, ap, true, false, none, some, Bool-cases, inl, inr, [], ◌∷◌, arith,
  if◌then◌else◌, ◌&&◌,
}
use logyard_apps.Prelude.Text.{eq_refl, Text, ◌==◌, eq_of_==, eq_iff, eq_refl, has_prefix}
use logyard_apps.Prelude.Int.{ℤ}
use logyard_apps.Prelude.Dict.{is_some, contains, Dict, get}
use logyard_apps.Prelude.Run.{Error, Result, ok, err}
use logyard_apps.Endpoint.Drain.{
  drain_name_of, make_drain, with_server, new_app_log_drain, add_uri, Logyard, AppLogDrain,
  drain_prefix, start, stop, add_drain, remove_orphaned_drains, remove_each,
}

-- A drain that is added or deleted without an error is there or is gone; an error changes nothing,
-- and nothing else changes. Line servers do not touch the store.
pub record IsStore {S V : Type 0} (ly : Logyard S V) : Type 0 where
  pub added :
      (n uri : Text) (s : S) (m : Text)
      → (ly.add_drain n uri s).0 ≡ none
      → get (ly.drains (ly.add_drain n uri s).1) m
        ≡ (if n == m then some uri else get (ly.drains s) m)
  pub not_added :
      (n uri : Text) (s : S) (m : Text)
      → is_some (ly.add_drain n uri s).0 ≡ true
      → get (ly.drains (ly.add_drain n uri s).1) m ≡ get (ly.drains s) m
  pub deleted :
      (n : Text) (s : S) (m : Text)
      → (ly.delete_drain n s).0 ≡ none
      → get (ly.drains (ly.delete_drain n s).1) m ≡ (if n == m then none else get (ly.drains s) m)
  pub not_deleted :
      (n : Text) (s : S) (m : Text)
      → is_some (ly.delete_drain n s).0 ≡ true
      → get (ly.drains (ly.delete_drain n s).1) m ≡ get (ly.drains s) m
  pub started : (v : V) (s : S) → ly.drains (ly.start_server v s) ≡ ly.drains s
  pub killed : (v : V) (e : Error) (s : S) → ly.drains (ly.kill v e s) ≡ ly.drains s

abbrev name_or : {V : Type 0} → Text → Result (AppLogDrain V) → Text
name_or other (ok d) = d.drain_name
name_or other (err e) = other

module _ {S V : Type 0} (ly : Logyard S V) where
  make_drain-name :
      (guid : Text) (srv : V) (port : Result ℕ) (lifetime : Result ℤ) (d : AppLogDrain V)
      → make_drain guid srv port lifetime ≡ ok d
      → drain_name_of guid ≡ d.drain_name
  unfolding make_drain
  make_drain-name guid srv (err e) lifetime d h = cc
  make_drain-name guid srv (ok port) (err e) d h = cc
  make_drain-name guid srv (ok port) (ok lifetime) d h = ap (name_or []) h

  with_server-name :
      (guid : Text) (srv : Result V) (d : AppLogDrain V)
      → with_server ly guid srv ≡ ok d
      → drain_name_of guid ≡ d.drain_name
  unfolding with_server
  with_server-name guid (err e) d h = cc
  with_server-name guid (ok srv) d h = make_drain-name guid srv _ _ d h

  pub new_app_log_drain-name :
      (guid : Text) (d : AppLogDrain V)
      → new_app_log_drain ly guid ≡ ok d
      → drain_name_of guid ≡ d.drain_name
  unfolding new_app_log_drain
  new_app_log_drain-name guid d h = with_server-name guid _ d h

module _ {S V : Type 0} (ly : Logyard S V) (store : IsStore ly) where
  add_uri_elsewhere :
      (n : Text) (uri : Result Text) (s : S) (m : Text)
      → (n == m) ≡ false
      → get (ly.drains (add_uri ly n uri s).1) m ≡ get (ly.drains s) m
  unfolding add_uri
  add_uri_elsewhere n (err e) s m other = refl
  add_uri_elsewhere n (ok uri) s m other =
      ground (arith, store.added n uri s m, store.not_added n uri s m)

  -- Starting a drain leaves every drain of another name as it is.
  pub start_elsewhere :
      (d : AppLogDrain V) (s : S) (m : Text)
      → (d.drain_name == m) ≡ false
      → get (ly.drains (start ly d s).1) m ≡ get (ly.drains s) m
  unfolding start add_drain
  start_elsewhere d s m other =
      add_uri_elsewhere d.drain_name _ (ly.start_server d.srv s) m other
      ∙ ap (λ ds. get ds m) (store.started d.srv s)

  -- So does stopping it.
  pub stop_elsewhere :
      (d : AppLogDrain V) (e : Error) (s : S) (m : Text)
      → (d.drain_name == m) ≡ false
      → get (ly.drains (stop ly d e s)) m ≡ get (ly.drains s) m
  unfolding stop
  stop_elsewhere d e s m other = ground (
    arith,
    store.killed d.srv e (ly.delete_drain d.drain_name s).1,
    store.deleted d.drain_name s m,
    store.not_deleted d.drain_name s m,
  )

  -- Unless the store refuses, the drain is gone.
  pub stop_removes :
      (d : AppLogDrain V) (e : Error) (s : S)
      → (ly.delete_drain d.drain_name s).0 ≡ none
      → get (ly.drains (stop ly d e s)) d.drain_name ≡ none
  unfolding stop
  stop_removes d e s well = ground (
    arith,
    store.killed d.srv e (ly.delete_drain d.drain_name s).1,
    store.deleted d.drain_name s d.drain_name,
    eq_refl d.drain_name,
  )

  remove_each_lem :
      ((n : Text) (s : S) → (ly.delete_drain n s).0 ≡ none)
      → (names : Dict Text) (s : S) (m : Text)
      → get (ly.drains (remove_each ly names s)) m
        ≡ (if contains names m && has_prefix m drain_prefix then none else get (ly.drains s) m)
  unfolding remove_each get
  remove_each_lem well [] s m = refl
  remove_each_lem well ((n, uri) ∷ rest) s m =
      let s' = if has_prefix n drain_prefix then (ly.delete_drain n s).1 else s in
      ground (arith, remove_each_lem well rest s' m, store.deleted n s m, well n s, eq_iff n m)

  -- With a store that never refuses, the removal of orphans removes the drains whose names have the
  -- endpoint's prefix, and no other.
  pub remove_orphaned_drains_lem :
      ((n : Text) (s : S) → (ly.delete_drain n s).0 ≡ none)
      → (s : S) (m : Text)
      → get (ly.drains (remove_orphaned_drains ly s)) m
        ≡ (if has_prefix m drain_prefix then none else get (ly.drains s) m)
  unfolding remove_orphaned_drains
  remove_orphaned_drains_lem well s m = ground (arith, remove_each_lem well (ly.drains s) s m)

  -- Where deletions succeed a session leaves nothing: starting and stopping a drain puts the store back, but for a drain of
  -- the same name, which is gone.
  pub stop-start :
      (d : AppLogDrain V) (e : Error) (s : S) (m : Text)
      → ((n : Text) (s' : S) → (ly.delete_drain n s').0 ≡ none)
      → get (ly.drains (stop ly d e (start ly d s).1)) m
        ≡ (if d.drain_name == m then none else get (ly.drains s) m)
  stop-start d e s m well = elim (Bool-cases (d.drain_name == m)) [
    | inl same ↦ rw same (
        rw (← eq_of_== d.drain_name m same)
          (stop_removes d e (start ly d s).1 (well d.drain_name _)))
    | inr other ↦
        rw other (stop_elsewhere d e (start ly d s).1 m other ∙ start_elsewhere d s m other)
  ]
