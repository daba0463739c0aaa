-- ===== src/Cmd/Adapter/Effects.antt =====
-- What the requests of the control plane do to the agents of a container.
use sexton.Common.{◌≡◌, ◌≢◌, ◌<◌, refl, arith, inl, inr, Bool-cases, All}
use sexton.Common.Duration.{Time, Duration, add_duration}
use sexton.Common.Result.{Result, ok, err, map_err-ok}
use sexton.Common.Text.{Text, same, same_iff}
use sexton.Git.Errors.{Fault}
use sexton.Config.Holdout.Merge.{InDay}
use sexton.Config.Repo.{ResolvedRepo}
use sexton.Agent.Holdout.{Zone}
use sexton.Agent.State.{Agent, windows_of}
use sexton.Agent.State.Control.Consistent.{
  IsConsistent, windows_of-EndsLater, trigger_sync-IsConsistent, snooze-IsConsistent,
  resume-IsConsistent,
}
use sexton.Agent.Controller.{resolve_agent}
use sexton.Agent.Controller.Failures.{resolve_agent-All}
use sexton.Rpc.{ControlError}
use sexton.Cmd.Adapter.{
  Container, control_error, put_agent, resolve, trigger_at, trigger_repo, snooze_at, snooze_repo,
  resume_at, resume_repo,
}

module _ (zone : Zone) (rfc3339 : Time → Text) (branch_of : ResolvedRepo → Result Fault Text)
    (now now' : Time) where
  -- A request for one repository leaves every other agent as it was.
  requests-others :
      (repo q : Text) (d : Duration) (c : Container) (cfg : ResolvedRepo)
      → resolve repo c ≡ ok cfg
      → q ≢ cfg.path
      → ((trigger_repo zone rfc3339 branch_of now now' repo c).1.agent_at q ≡ c.agent_at q)
        × ((snooze_repo zone rfc3339 branch_of now now' repo d c).1.agent_at q ≡ c.agent_at q)
        × ((resume_repo zone rfc3339 branch_of now now' repo c).1.agent_at q ≡ c.agent_at q)
  unfolding trigger_repo snooze_repo resume_repo trigger_at snooze_at resume_at put_agent
  requests-others repo q d c cfg h n = rw h (
    ground (arith, same_iff q cfg.path),
    ground (arith, same_iff q cfg.path),
    ground (arith, same_iff q cfg.path),
  )

  -- The agents of a container, and the windows of their repositories.
  abbrev pub AllConsistent : Container → Type 0
  AllConsistent c = (q : Text) → IsConsistent (c.agent_at q)

  abbrev AllInDay : Container → Type 0
  AllInDay c = All (λ cfg. All InDay cfg.holdout_windows) c.configs

  resolve-InDay :
      (repo : Text) (c : Container) (cfg : ResolvedRepo)
      → AllInDay c
      → resolve repo c ≡ ok cfg
      → All InDay cfg.holdout_windows
  unfolding resolve
  resolve-InDay repo c cfg h e =
      resolve_agent-All (λ a. All InDay a.holdout_windows) repo c.configs cfg h
        (map_err-ok control_error (resolve_agent repo c.configs) cfg e)

  put_agent-IsConsistent :
      (path : Text) (a : Agent) (agents : Text → Agent) (q : Text)
      → IsConsistent a
      → IsConsistent (agents q)
      → IsConsistent (put_agent path a agents q)
  unfolding put_agent
  put_agent-IsConsistent path a agents q h k = elim (Bool-cases (same q path)) [
    | inl e ↦ rw e h
    | inr e ↦ rw e k
  ]

  abbrev Resolved : Container → Result ControlError ResolvedRepo → Type 0
  Resolved c (ok cfg) = All InDay cfg.holdout_windows
  Resolved c (err e) = Unit

  resolve-Resolved : (repo : Text) (c : Container) → AllInDay c → Resolved c (resolve repo c)
  resolve-Resolved repo c h = by_result (resolve repo c) refl
    where
      by_result : (r : Result ControlError ResolvedRepo) → resolve repo c ≡ r → Resolved c r
      by_result (ok cfg) e = resolve-InDay repo c cfg h e
      by_result (err l) e = tt

  trigger_at-AllConsistent :
      (c : Container) (r : Result ControlError ResolvedRepo)
      → Resolved c r
      → AllConsistent c
      → AllConsistent (trigger_at zone rfc3339 branch_of now now' c r).1
  unfolding trigger_at
  trigger_at-AllConsistent c (err e) h k q = k q
  trigger_at-AllConsistent c (ok cfg) h k q =
      put_agent-IsConsistent cfg.path _ c.agent_at q
        (trigger_sync-IsConsistent (windows_of zone cfg.holdout_windows)
          (windows_of-EndsLater zone cfg.holdout_windows h) now now' (c.agent_at cfg.path)
          (k cfg.path))
        (k q)

  snooze_at-AllConsistent :
      (c : Container) (d : Duration) (r : Result ControlError ResolvedRepo)
      → 0 < add_duration now d
      → Resolved c r
      → AllConsistent c
      → AllConsistent (snooze_at zone rfc3339 branch_of now now' c d r).1
  unfolding snooze_at
  snooze_at-AllConsistent c d (err e) s h k q = k q
  snooze_at-AllConsistent c d (ok cfg) s h k q =
      put_agent-IsConsistent cfg.path _ c.agent_at q
        (snooze-IsConsistent (windows_of zone cfg.holdout_windows)
          (windows_of-EndsLater zone cfg.holdout_windows h) d now now' (c.agent_at cfg.path) s
          (k cfg.path))
        (k q)

  resume_at-AllConsistent :
      (c : Container) (r : Result ControlError ResolvedRepo)
      → Resolved c r
      → AllConsistent c
      → AllConsistent (resume_at zone rfc3339 branch_of now now' c r).1
  unfolding resume_at
  resume_at-AllConsistent c (err e) h k q = k q
  resume_at-AllConsistent c (ok cfg) h k q =
      put_agent-IsConsistent cfg.path _ c.agent_at q
        (resume-IsConsistent (windows_of zone cfg.holdout_windows)
          (windows_of-EndsLater zone cfg.holdout_windows h) now now' (c.agent_at cfg.path)
          (k cfg.path))
        (k q)

  -- Every request of the control plane that may change an agent keeps all the agents of a
  -- container consistent, whatever identifier it names and whatever it is answered, given that the
  -- windows of the repositories lie within the day and that the snooze does not end at the zero
  -- time.
  pub requests-AllConsistent :
      (repo : Text) (d : Duration) (c : Container)
      → 0 < add_duration now d
      → AllInDay c
      → AllConsistent c
      → AllConsistent (trigger_repo zone rfc3339 branch_of now now' repo c).1
        × AllConsistent (snooze_repo zone rfc3339 branch_of now now' repo d c).1
        × AllConsistent (resume_repo zone rfc3339 branch_of now now' repo c).1
  unfolding trigger_repo snooze_repo resume_repo
  requests-AllConsistent repo d c s h k =
      let found = resolve-Resolved repo c h in
      (
        trigger_at-AllConsistent c (resolve repo c) found k,
        snooze_at-AllConsistent c d (resolve repo c) s found k,
        resume_at-AllConsistent c (resolve repo c) found k,
      )
