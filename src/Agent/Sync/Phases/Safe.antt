-- ===== src/Agent/Sync/Phases/Safe.antt =====
-- What the phases of a sync up to the commit keep: each goes on with the sync running, or returns with
-- the agent at rest (or the context canceled).
use sexton.Common.{
  refl, Bool, true, false, Option, List, [], ◌∷◌, if◌then◌else◌, arith, ltb, length,
}
use sexton.Common.Result.{Result, ok, err}
use sexton.Common.Text.{Text, same, codes}
use sexton.Git.Status.{Status, has_changes}
use sexton.Agent.Policy.{Policy, policy_all, policy_regions, policy_none, PolicyPartition}
use sexton.Agent.State.{Windows}
use sexton.Agent.State.Control.Consistent.{EndsLater}
use sexton.Agent.Sync.World.{
  Fault, nothing_to_commit, Env, IsReliable, SyncConfig, stage_all, stage_regions, ResolvedHook,
}
use sexton.Agent.Sync.Monad.{Sys, M, should_abort, fail, run_hooks, return}
use sexton.Agent.Sync.Monad.Safe.{
  Running, Leads, IsHonest, HonestResult, Leads-bind, Leads-return, Leads-stop, perform-Leads,
  Checked, canceled_or-Leads, should_abort-Leads, set_error-Leads, fail-Leads, attempt-Leads,
  run_hooks-Leads,
}
use sexton.Agent.Sync.Phases.{
  Committed, match_branch, check_branch, read_status, refuse_unmerged, check_unmerged, stage,
  created, create_commit, fall_back, complete, summarize, generate_message, or_message,
  describe_commit, commit_selected, fault_of, wrap, max_diff_bytes,
}

module _ {W : Type 0} (env : Env W) (windows : Windows) (cfg : SyncConfig)
    (reliable : IsReliable env) (later : EndsLater windows) where
  abbrev pub Runs : {A : Type 0} → M W A → Type 0
  Runs {A = A} m = Leads env {A = A} (Running env) (λ _. Running env) m

  pub abort : Runs {A = Unit {0}} (should_abort env windows)
  abort = should_abort-Leads env windows reliable later

  pub if-Leads :
      {A : Type 0} {P : Sys W → Type 0} {Q : A → Sys W → Type 0} (x y : M W A) (b : Bool)
      → Leads env {A = A} P Q x
      → Leads env {A = A} P Q y
      → Leads env {A = A} P Q (if b then x else y)
  if-Leads x y true p q = p
  if-Leads x y false p q = q

  pub Leads-pre :
      {A : Type 0} {P P' : Sys W → Type 0} {Q : A → Sys W → Type 0} {m : M W A}
      → ((s : Sys W) → P' s → P s)
      → Leads env {A = A} P Q m
      → Leads env {A = A} P' Q m
  Leads-pre k h = record { at = λ s p. h.at s (k s p) }

  -- An error of the sync's own is no cancellation.
  own-Leads :
      {A : Type 0} {Q : A → Sys W → Type 0} (message text : Text)
      → Leads env {A = A} (Running env) Q (fail env windows message (fault_of text))
  own-Leads message text = record {
    at = λ s p.
        (fail-Leads env windows reliable later message (fault_of text)).at s (p, λ e. ground arith);
  }

  wrapped-Leads :
      {A : Type 0} {Q : A → Sys W → Type 0} (message text : Text) (f : Fault)
      → Leads env {A = A}
          (λ s. Running env s × IsHonest env f s)
          Q
          (fail env windows message (wrap text f))
  wrapped-Leads message text f = record {
    at = (fail-Leads env windows reliable later message (wrap text f)).at;
  }

  match_branch-Leads :
      (r : Result Fault Text)
      → Leads env {A = Unit {0}}
          (HonestResult env r)
          (λ _. Running env)
          (match_branch env windows cfg r)
  unfolding match_branch
  match_branch-Leads (ok current) =
      if-Leads _ _ (same current cfg.branch_name) (Leads-return env tt) (own-Leads _ _)
  match_branch-Leads (err f) = wrapped-Leads _ (codes "failed to determine current branch: ") f

  pub check_branch-Leads : Runs {A = Unit {0}} (check_branch env windows cfg)
  unfolding check_branch
  check_branch-Leads =
      Leads-bind env (perform-Leads env windows reliable later _)
        λ r. Leads-bind env (match_branch-Leads r) λ _. abort

  pub read_status-Leads : Runs {A = Status} (read_status env windows cfg)
  unfolding read_status
  read_status-Leads =
      Leads-bind env (attempt-Leads env windows reliable later _ _)
        λ s. Leads-bind env abort λ _. Leads-return env _

  refuse_unmerged-Leads :
      (ps : List Text) → Runs {A = Unit {0}} (refuse_unmerged env windows cfg ps)
  unfolding refuse_unmerged
  refuse_unmerged-Leads [] = Leads-return env tt
  refuse_unmerged-Leads (p ∷ ps) =
      Leads-bind env (set_error-Leads env windows reliable later _ _) λ _. Leads-stop env

  pub check_unmerged-Leads : (s : Status) → Runs {A = Unit {0}} (check_unmerged env windows cfg s)
  unfolding check_unmerged
  check_unmerged-Leads s =
      if-Leads _ _ (has_changes s)
        (Leads-bind env (attempt-Leads env windows reliable later _ _)
          λ ps. Leads-bind env (refuse_unmerged-Leads ps) λ _. abort)
        (Leads-return env tt)

  stage-Leads : (p : Policy) (rs : List Text) → Runs {A = Unit {0}} (stage env windows cfg p rs)
  unfolding stage
  stage-Leads policy_all rs = attempt-Leads env windows reliable later stage_all _
  stage-Leads policy_regions rs = attempt-Leads env windows reliable later (stage_regions rs) _
  stage-Leads policy_none rs = Leads-return env tt

  created-Leads :
      (r : Result Fault Text)
      → Leads env {A = Text} (HonestResult env r) (λ _. Running env) (created env windows cfg r)
  unfolding created
  created-Leads (ok sha) = Leads-return env sha
  created-Leads (err f) =
      if-Leads _ _ (f.is nothing_to_commit) (record { at = λ s p. p.0 })
        (record { at = λ s p. (fail-Leads env windows reliable later _ f).at s p })

  create_commit-Leads :
      (p : Policy) (rs : List Text) → Runs {A = Text} (create_commit env windows cfg p rs)
  unfolding create_commit
  create_commit-Leads policy_all rs =
      Leads-bind env (perform-Leads env windows reliable later _) created-Leads
  create_commit-Leads policy_regions rs =
      Leads-bind env (perform-Leads env windows reliable later _) created-Leads
  create_commit-Leads policy_none rs = Leads-return env []

  -- A message, or an error that a cancellation explains.
  kept_or :
      (fallback : Text) (f : Fault) (c : Bool) (s : Sys W)
      → Checked env windows reliable later c s
      → HonestResult env (if c then err f else ok fallback) s
  unfolding Checked
  kept_or fallback f true s p = (p.0, λ _. p.1 refl)
  kept_or fallback f false s p = p.0

  keep-Leads :
      (fallback : Text) (f : Fault) (c : Bool)
      → Leads env {A = Result Fault Text}
          (Checked env windows reliable later c)
          (HonestResult env)
          (return (if c then err f else ok fallback))
  keep-Leads fallback f c = record { at = λ s p. kept_or fallback f c s p }

  fall_back-Leads :
      {A : Type 0} (fallback : Text) (next : A → M W (Result Fault Text)) (r : Result Fault A)
      → ((a : A) → Leads env {A = Result Fault Text} (Running env) (HonestResult env) (next a))
      → Leads env {A = Result Fault Text}
          (HonestResult env r)
          (HonestResult env)
          (fall_back env windows cfg fallback next r)
  unfolding fall_back
  fall_back-Leads fallback next (ok a) k = k a
  fall_back-Leads fallback next (err f) k =
      Leads-bind env (canceled_or-Leads env windows reliable later f) λ c. keep-Leads fallback f c

  complete-Leads :
      (fallback diff : Text)
      → Leads env {A = Result Fault Text}
          (Running env)
          (HonestResult env)
          (complete env windows cfg fallback diff)
  unfolding complete
  complete-Leads fallback diff =
      Leads-bind env (perform-Leads env windows reliable later _)
        λ r. fall_back-Leads fallback _ r λ text. record { at = λ s p. p }

  summarize-Leads :
      (sha fallback diff : Text)
      → Leads env {A = Result Fault Text}
          (Running env)
          (HonestResult env)
          (summarize env windows cfg sha fallback diff)
  unfolding summarize
  summarize-Leads sha fallback diff =
      if-Leads _ _ (ltb max_diff_bytes (length diff))
        (Leads-bind env (perform-Leads env windows reliable later _)
          λ r. fall_back-Leads fallback _ r (complete-Leads fallback))
        (complete-Leads fallback diff)

  generate_message-Leads :
      (sha : Text) (s : Option Status)
      → Leads env {A = Result Fault Text}
          (Running env)
          (HonestResult env)
          (generate_message env windows cfg sha s)
  unfolding generate_message
  generate_message-Leads sha s =
      if-Leads _ _ cfg.has_llm
        (Leads-bind env (perform-Leads env windows reliable later _)
          λ r. fall_back-Leads _ _ r (summarize-Leads sha _))
        (record { at = λ s p. p })

  or_message-Leads :
      (r : Result Fault Text)
      → Leads env {A = Text} (HonestResult env r) (λ _. Running env) (or_message env windows cfg r)
  unfolding or_message
  or_message-Leads (ok message) = record { at = λ s p. p }
  or_message-Leads (err f) = record {
    at = λ s p. (fail-Leads env windows reliable later _ f).at s p;
  }

  pub hooks-Leads :
      (phase : Text) (hs : List ResolvedHook) → Runs {A = Unit {0}} (run_hooks env windows phase hs)
  hooks-Leads phase hs = run_hooks-Leads env windows reliable later phase hs

  describe_commit-Leads : (sha : Text) → Runs {A = Committed} (describe_commit env windows cfg sha)
  unfolding describe_commit
  describe_commit-Leads [] = Leads-return env _
  describe_commit-Leads (c ∷ sha) =
      Leads-bind env (attempt-Leads env windows reliable later _ _) λ s.
        Leads-bind env (generate_message-Leads _ s) λ m.
          Leads-bind env (or_message-Leads m) λ message.
            Leads-bind env (attempt-Leads env windows reliable later _ _) λ _.
              Leads-bind env abort λ _.
                Leads-bind env (hooks-Leads _ _) λ _. Leads-bind env abort λ _. Leads-return env _

  pub commit_selected-Leads :
      (part : PolicyPartition) → Runs {A = Committed} (commit_selected env windows cfg part)
  unfolding commit_selected
  commit_selected-Leads part =
      if-Leads _ _ part.has_selected_changes
        (Leads-bind env (hooks-Leads _ _) λ _. Leads-bind env abort λ _.
          Leads-bind env (stage-Leads _ _) λ _.
            Leads-bind env abort
              λ _. Leads-bind env (create_commit-Leads _ _) describe_commit-Leads)
        (Leads-return env _)
