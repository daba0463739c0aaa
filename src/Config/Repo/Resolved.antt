-- ===== src/Config/Repo/Resolved.antt =====
-- What a configuration that resolves can be relied on for.
use sexton.Common.{◌≡◌, refl, true, false, ◌&&◌, List, [], ◌∷◌, is_empty, All, arith}
use sexton.Common.Duration.{Duration}
use sexton.Common.Result.{ok, map_err, map_err-ok, bind-ok, ok_inj, ◌>>◌}
use sexton.Common.Text.{Text, codes, same, elem}
use mathlib.Core.Path.{subst}
use sexton.Config.Holdout.{ResolvedHoldoutWindow, resolve_holdout_windows}
use sexton.Config.Holdout.Merge.{IsSeparated, InDay}
use sexton.Config.Holdout.Resolve.{resolve-IsSeparated}
use sexton.Config.Hooks.{Machine, ResolvedHooks, expand_path, resolve_hooks}
use sexton.Config.Regions.{IsRegion, resolve_commit_regions, resolve_commit_regions-IsRegion}
use sexton.Config.Repo.{
  RepoDefaults, RepoEntry, RepoLocalConfig, ResolvedRepo, coalesce, policy_names,
  validate_commit_policy, require_regions, assemble, resolve_regions, resolve_policy,
  resolve_windows, resolve_with, resolve_poll, resolve, bad_hook_timeout, bad_holdout, bad_region,
}

-- The policy is one of the three, the policy `regions` comes with a region, each region names a
-- directory below the root, the windows lie apart within the day, and there are a branch and a remote.
pub record IsResolved (r : ResolvedRepo) : Type 0 where
  pub known_policy : elem r.commit_policy policy_names ≡ true
  pub has_regions : (same r.commit_policy (codes "regions") && is_empty r.commit_regions) ≡ false
  pub are_regions : All IsRegion r.commit_regions
  pub separated : IsSeparated r.holdout_windows
  pub in_day : All InDay r.holdout_windows
  pub has_branch : is_empty r.branch ≡ false
  pub has_remote : is_empty r.remote ≡ false

coalesce-nonempty :
    (a b c d : Text) → is_empty d ≡ false → is_empty (coalesce (a ∷ b ∷ c ∷ d ∷ [])) ≡ false
unfolding coalesce
coalesce-nonempty a b c d h = ground arith

known : (policy : Text) → validate_commit_policy policy ≡ ok tt → elem policy policy_names ≡ true
unfolding validate_commit_policy
known policy e = ground arith

required :
    (policy : Text) (regions : List Text)
    → require_regions policy regions ≡ ok tt
    → (same policy (codes "regions") && is_empty regions) ≡ false
unfolding require_regions
required policy regions e = ground arith

module _ (machine : Machine) (default_prompt : Text) where
  regions-IsResolved :
      (entry : RepoEntry) (defaults : RepoDefaults) (local : RepoLocalConfig) (poll : Duration)
      (hooks : ResolvedHooks) (windows : List ResolvedHoldoutWindow) (r : ResolvedRepo)
      → IsSeparated windows × All InDay windows
      → elem
          (assemble machine default_prompt entry defaults local poll hooks windows []).commit_policy
          policy_names
        ≡ true
      → resolve_regions machine default_prompt entry defaults local poll hooks windows ≡ ok r
      → IsResolved r
  unfolding resolve_regions
  regions-IsResolved entry defaults local poll hooks windows r w k h =
      let build = assemble machine default_prompt entry defaults local poll hooks windows in
      let found =
        resolve_commit_regions local.settings.commit_regions entry.settings.commit_regions
          defaults.commit_regions in
      let (regions, e, h') =
        bind-ok (map_err bad_region found)
          (λ regions. require_regions (build []).commit_policy regions >> ok (build regions)) r h in
      let (u, e', h'') =
        bind-ok (require_regions (build []).commit_policy regions) (λ _. ok (build regions)) r h' in
      subst IsResolved (ok_inj h'') (record {
        known_policy = k;
        has_regions = required (build []).commit_policy regions e';
        are_regions =
            resolve_commit_regions-IsRegion local.settings.commit_regions
              entry.settings.commit_regions defaults.commit_regions regions
              (map_err-ok bad_region found regions e);
        separated = w.0;
        in_day = w.1;
        has_branch = coalesce-nonempty _ _ _ (codes "main") refl;
        has_remote = coalesce-nonempty _ _ _ (codes "origin") refl;
      })

  policy-IsResolved :
      (entry : RepoEntry) (defaults : RepoDefaults) (local : RepoLocalConfig) (poll : Duration)
      (hooks : ResolvedHooks) (windows : List ResolvedHoldoutWindow) (r : ResolvedRepo)
      → IsSeparated windows × All InDay windows
      → resolve_policy machine default_prompt entry defaults local poll hooks windows ≡ ok r
      → IsResolved r
  unfolding resolve_policy
  policy-IsResolved entry defaults local poll hooks windows r w h =
      let policy =
        (assemble machine default_prompt entry defaults local poll hooks windows
          []).commit_policy in
      let (u, e, h') =
        bind-ok (validate_commit_policy policy)
          (λ _. resolve_regions machine default_prompt entry defaults local poll hooks windows) r
          h in
      regions-IsResolved entry defaults local poll hooks windows r w (known policy e) h'

  windows-IsResolved :
      (entry : RepoEntry) (defaults : RepoDefaults) (local : RepoLocalConfig) (poll : Duration)
      (hooks : ResolvedHooks) (r : ResolvedRepo)
      → resolve_windows machine default_prompt entry defaults local poll hooks ≡ ok r
      → IsResolved r
  unfolding resolve_windows
  windows-IsResolved entry defaults local poll hooks r h =
      let found =
        resolve_holdout_windows defaults.holdout_windows entry.settings.holdout_windows
          local.settings.holdout_windows in
      let (windows, e, h') =
        bind-ok (map_err bad_holdout found)
          (resolve_policy machine default_prompt entry defaults local poll hooks) r h in
      policy-IsResolved entry defaults local poll hooks windows r
        (resolve-IsSeparated defaults.holdout_windows entry.settings.holdout_windows
          local.settings.holdout_windows windows (map_err-ok bad_holdout found windows e))
        h'

  -- If the configuration of a repository resolves, its policy is one of the three, the policy
  -- `regions` comes with a region, each region names a directory below the root of the repository,
  -- the holdout windows lie apart within the day, and neither the branch nor the remote is empty.
  pub resolve-IsResolved :
      (entry : RepoEntry) (defaults : RepoDefaults) (local : RepoLocalConfig) (r : ResolvedRepo)
      → resolve machine default_prompt entry defaults local ≡ ok r
      → IsResolved r
  unfolding resolve resolve_with
  resolve-IsResolved entry defaults local r h =
      let (poll, e, h') =
        bind-ok (resolve_poll machine default_prompt entry defaults local)
          (resolve_with machine default_prompt entry defaults local) r h in
      let (hooks, e', h'') =
        bind-ok
          (map_err bad_hook_timeout (
            resolve_hooks machine (expand_path machine entry.path) defaults.hooks
              entry.settings.hooks local.settings.hooks))
          (resolve_windows machine default_prompt entry defaults local poll) r h' in
      windows-IsResolved entry defaults local poll hooks r h''
