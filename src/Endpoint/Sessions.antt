-- ===== src/Endpoint/Sessions.antt =====
-- applog_endpoint as one process: what main does with the drains, and the tail sessions that come and
-- end in any order (cmd/applog_endpoint/main.go, `tailHandlerWs` of server.go, the goroutine of
-- `Start` in drain/app_log_drain.go).
pub mod Numbered
pub mod Owned
use logyard_apps.Prelude.{ℕ, ◌+◌, ◌≡◌, Bool, true, false, List, [], ◌∷◌}
use logyard_apps.Prelude.Text.{Text, ◌==◌}
use logyard_apps.Prelude.Run.{Error, Result, ok, err}
use logyard_apps.Tracker.Shared.{set}
use logyard_apps.Endpoint.Drain.{
  Logyard, AppLogDrain, new_app_log_drain, start, stop, lifetime_over, remove_orphaned_drains,
}

-- Where a session stands with its drain.
pub data Session (V : Type 0) : Type 0 where
  no_session : Session V
  running : AppLogDrain V → Session V
  ended : AppLogDrain V → Session V  -- with its line server, and without a call of `Stop`
  stopped : AppLogDrain V → Session V

-- `S` is the state of Logyard's store and of the line servers. `n` numbers the sessions.
pub record Process (S V : Type 0) : Type 0 where
  pub n : ℕ
  pub store : S
  pub sessions : ℕ → Session V

-- A session for an application begins to tail; its forwarding ends with an error; the lifetime of its
-- drain is over, which is shown in the reason; its line server ends by itself, upon which the
-- goroutine of `Start` returns, and `Forward` too, without an error.
pub data Moment : Type 0 where
  opens : Text → Moment
  fails : ℕ → Error → Moment
  expires : ℕ → Text → Moment
  dies : ℕ → Moment

module _ {S V : Type 0} (ly : Logyard S V) where
  -- The handler goes on where the drain was not started.
  pub open_session : Result (AppLogDrain V) → Process S V → Process S V
  open_session (err e) p = record p { n = p.n + 1 }
  open_session (ok d) p = record {
    n = p.n + 1;
    store = (start ly d p.store).1;
    sessions = set p.sessions p.n (running d);
  }

  pub end_session : ℕ → Session V → (AppLogDrain V → S → S) → Process S V → Process S V
  end_session k no_session stop p = p
  end_session k (ended d) stop p = p
  end_session k (running d) stop p = record p {
    store = stop d p.store;
    sessions = set p.sessions k (stopped d);
  }
  end_session k (stopped d) stop p = record p { store = stop d p.store }

  -- Nobody removes the drain.
  pub lose_server : ℕ → Session V → Process S V → Process S V
  lose_server k (running d) p = record p { sessions = set p.sessions k (ended d) }
  lose_server k other p = p

  unfoldable pub step : Moment → Process S V → Process S V
  unfolding open_session end_session lose_server
  step (opens guid) p = open_session (new_app_log_drain ly guid) p
  step (fails k reason) p = end_session k (p.sessions k) (λ d. stop ly d reason) p
  step (expires k shown) p = end_session k (p.sessions k) (λ d. lifetime_over ly shown d) p
  step (dies k) p = lose_server k (p.sessions k) p

  unfoldable pub steps : List Moment → Process S V → Process S V
  steps [] p = p
  steps (m ∷ rest) p = steps rest (step m p)

  -- `main` removes the drains of earlier processes, and then serves.
  unfoldable pub serve : List Moment → S → Process S V
  serve moments s =
      steps moments
        (record { n = 0; store = remove_orphaned_drains ly s; sessions = λ k. no_session })
