-- ===== src/Endpoint/Sessions/Owned.antt =====
-- Whose the drains are that the endpoint has in Logyard.
use logyard_apps.Prelude.{
  ◌++◌, ℕ, ◌≤◌, ◌≡◌, refl, sym, ◌∙◌, subst, true, false, Bool-cases, Option-cases, ◌⊎◌, inl, inr,
  none, List, [], ◌∷◌, arith, if◌then◌else◌,
}
use logyard_apps.Prelude.Text.{Text, codes, ◌==◌, eq_of_==, has_prefix, has_prefix-append}
use logyard_apps.Prelude.Dict.{get, is_some}
use logyard_apps.Prelude.Run.{Error, Result, ok, err}
use logyard_apps.Tracker.Shared.{set}
use logyard_apps.Endpoint.Drain.{
  Logyard, AppLogDrain, drain_prefix, new_app_log_drain, stop, lifetime_over,
}
use logyard_apps.Endpoint.Drain.Names.{
  IsStore, new_app_log_drain-name, start_elsewhere, stop_elsewhere, stop_removes,
  remove_orphaned_drains_lem,
}
use logyard_apps.Endpoint.Sessions.{
  dies, lose_server, ended, Session, no_session, running, stopped, Process, Moment, opens, fails,
  expires, open_session, end_session, step, steps, serve,
}
use logyard_apps.Endpoint.Sessions.Numbered.{
  has_drain, IsNamed, other_name, nat_eq_later, set-no_session, set-IsNamed, still_owned,
}

module _ {S V : Type 0} (ly : Logyard S V) (store : IsStore ly) where
  module _ (well : (n : Text) (s : S) → (ly.delete_drain n s).0 ≡ none) (before : S) where
    -- Every drain with the endpoint's prefix is that of a session that has not stopped it, and the others are as
    -- they were.
    record IsOwned (p : Process S V) : Type 0 where
      fresh : (k : ℕ) → p.n ≤ k → p.sessions k ≡ no_session
      named : (k : ℕ) → IsNamed (p.sessions k)
      owned :
          (m : Text)
          → has_prefix m drain_prefix ≡ true
          → is_some (get (ly.drains p.store) m) ≡ true
          → (k : ℕ) × (has_drain m (p.sessions k) ≡ true)
      others :
          (m : Text)
          → has_prefix m drain_prefix ≡ false
          → get (ly.drains p.store) m ≡ get (ly.drains before) m

    new-IsNamed :
        (guid : Text) (d : AppLogDrain V)
        → new_app_log_drain ly guid ≡ ok d
        → has_prefix d.drain_name drain_prefix ≡ true
    new-IsNamed guid d h =
        rw (← new_app_log_drain-name ly guid d h)
          (has_prefix-append drain_prefix (codes "." ++ guid))

    open-IsOwned :
        (r : Result (AppLogDrain V)) (p : Process S V)
        → ((d : AppLogDrain V) → r ≡ ok d → has_prefix d.drain_name drain_prefix ≡ true)
        → IsOwned p
        → IsOwned (open_session ly r p)
    unfolding open_session
    open-IsOwned (err e) p name o = record {
      fresh = λ k l. o.fresh k (omega (arith, l));
      named = o.named;
      owned = o.owned;
      others = o.others;
    }
    open-IsOwned (ok d) p name o = record {
      fresh = λ k l. rw (nat_eq_later p.n k l) (o.fresh k (omega (arith, l)));
      named = set-IsNamed p.sessions p.n (running d) (name d refl) o.named;
      owned = λ m h there. elim (Bool-cases (d.drain_name == m)) [
        | inl same ↦ (p.n, ground (arith, same))
        | inr other ↦
            still_owned p.sessions p.n (running d) m
              (λ r. absurd (ground (arith, r, o.fresh p.n (omega arith))))
              (o.owned m h
                (subst (λ u. is_some u ≡ true) (start_elsewhere ly store d p.store m other) there))
      ];
      others = λ m h.
          start_elsewhere ly store d p.store m (other_name d.drain_name m (name d refl) h)
          ∙ o.others m h;
    }

    -- A session stops: its drain is gone.
    stop-IsOwned :
        (k : ℕ) (d : AppLogDrain V) (reason : Error) (p : Process S V)
        → IsOwned p
        → has_prefix d.drain_name drain_prefix ≡ true
        → (sessions : ℕ → Session V) → ((j : ℕ) → p.n ≤ j → sessions j ≡ no_session)
        → ((j : ℕ) → IsNamed (sessions j))
        → ((m : Text)
            → (d.drain_name == m) ≡ false
            → (j : ℕ) × (has_drain m (p.sessions j) ≡ true)
            → (j : ℕ) × (has_drain m (sessions j) ≡ true))
        → IsOwned (record p { store = stop ly d reason p.store; sessions = sessions })
    stop-IsOwned k d reason p o name sessions fresh named kept = record {
      fresh = fresh;
      named = named;
      owned = λ m h there. elim (Bool-cases (d.drain_name == m)) [
        | inl same ↦ absurd (
            ground (
              arith,
              subst (λ u. is_some (get (ly.drains (stop ly d reason p.store)) u) ≡ true)
                  (sym (eq_of_== d.drain_name m same)) there,
              stop_removes ly store d reason p.store (well d.drain_name p.store),
            ))
        | inr other ↦ kept m other (
            o.owned m h (
              subst (λ u. is_some u ≡ true) (stop_elsewhere ly store d reason p.store m other)
                there))
      ];
      others = λ m h.
          stop_elsewhere ly store d reason p.store m (other_name d.drain_name m name h)
          ∙ o.others m h;
    }

    end-IsOwned :
        (k : ℕ) (w : Session V) (reason : Error) (p : Process S V)
        → p.sessions k ≡ w
        → IsOwned p
        → IsOwned (end_session ly k w (λ d. stop ly d reason) p)
    unfolding end_session
    end-IsOwned k no_session reason p e o = o
    end-IsOwned k (ended d) reason p e o = o
    end-IsOwned k (running d) reason p e o =
        let name = subst IsNamed e (o.named k) in
        stop-IsOwned k d reason p o name (set p.sessions k (stopped d))
          (set-no_session p.sessions k (running d) (stopped d) p.n e
            (λ r. absurd (ground (arith, r))) o.fresh)
          (set-IsNamed p.sessions k (stopped d) name o.named)
          (λ m other.
            still_owned p.sessions k (stopped d) m
              (λ r. absurd (ground (arith, subst (λ u. has_drain m u ≡ true) e r, other))))
    end-IsOwned k (stopped d) reason p e o =
        stop-IsOwned k d reason p o (subst IsNamed e (o.named k)) p.sessions o.fresh o.named
          (λ m other j. j)

    lose-IsOwned :
        (k : ℕ) (w : Session V) (p : Process S V)
        → p.sessions k ≡ w
        → IsOwned p
        → IsOwned (lose_server ly k w p)
    unfolding lose_server
    lose-IsOwned k no_session p e o = o
    lose-IsOwned k (ended d) p e o = o
    lose-IsOwned k (stopped d) p e o = o
    lose-IsOwned k (running d) p e o = record {
      fresh =
          set-no_session p.sessions k (running d) (ended d) p.n e (λ r. absurd (ground (arith, r)))
            o.fresh;
      named = set-IsNamed p.sessions k (ended d) (subst IsNamed e (o.named k)) o.named;
      owned = λ m h there.
          still_owned p.sessions k (ended d) m (λ r. subst (λ u. has_drain m u ≡ true) e r)
            (o.owned m h there);
      others = o.others;
    }

    step-IsOwned : (m : Moment) (p : Process S V) → IsOwned p → IsOwned (step ly m p)
    unfolding step lifetime_over
    step-IsOwned (opens guid) p o =
        open-IsOwned (new_app_log_drain ly guid) p (λ d h. new-IsNamed guid d h) o
    step-IsOwned (fails k reason) p o = end-IsOwned k (p.sessions k) reason p refl o
    step-IsOwned (expires k shown) p o =
        end-IsOwned k (p.sessions k) (codes "Timed out " ++ shown) p refl o
    step-IsOwned (dies k) p o = lose-IsOwned k (p.sessions k) p refl o

    steps-IsOwned : (ms : List Moment) (p : Process S V) → IsOwned p → IsOwned (steps ly ms p)
    unfolding steps
    steps-IsOwned [] p o = o
    steps-IsOwned (m ∷ rest) p o = steps-IsOwned rest (step ly m p) (step-IsOwned m p o)

    serve-IsOwned : (moments : List Moment) → IsOwned (serve ly moments before)
    unfolding serve
    serve-IsOwned moments = steps-IsOwned moments _ (record {
      fresh = λ k l. refl;
      named = λ k. tt;
      owned = λ n h there.
          absurd (ground (arith, remove_orphaned_drains_lem ly store well before n, h, there));
      others = λ n h. ground (arith, remove_orphaned_drains_lem ly store well before n, h);
    })

    -- Whatever sessions came and ended since the endpoint started, in whatever order, a name has the
    -- endpoint's prefix and is that of the drain of a session that did not stop its drain, since it
    -- runs or since its line server ended by itself; or Logyard has what it had under the name, and
    -- nothing if the name has that prefix, where deletions succeed and the store keeps its contract.
    pub serve_lem :
        (moments : List Moment) (m : Text)
        → ((has_prefix m drain_prefix ≡ true)
            × (k : ℕ) × (has_drain m ((serve ly moments before).sessions k) ≡ true))
          ⊎ (get (ly.drains (serve ly moments before).store) m
              ≡ (if has_prefix m drain_prefix then none else get (ly.drains before) m))
    serve_lem moments m =
        let o = serve-IsOwned moments in
        elim (Bool-cases (has_prefix m drain_prefix)) [
          | inl own ↦ elim (Option-cases (get (ly.drains (serve ly moments before).store) m)) [
            | inl gone ↦ inr (rw (gone, own) refl)
            | inr (uri, there) ↦ let (k, r) = o.owned m own (rw there refl) in inl (own, k, r)
          ]
          | inr other ↦ inr (rw other (o.others m other))
        ]
