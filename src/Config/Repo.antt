-- ===== src/Config/Repo.antt =====
-- `Resolve` of internal/config/load.go: the configuration of a repository out of the three layers,
-- its own file, its entry in the configuration of the agent, and the defaults there.
pub mod Resolved
mod Tests
use sexton.Common.{
  Bool, true, false, not, ◌||◌, ◌&&◌, Option, none, some, List, [], ◌∷◌, ◌++◌, is_empty,
  if◌then◌else◌,
}
use sexton.Common.Duration.{Duration}
use sexton.Common.Result.{Result, ok, err, ◌>>=◌, ◌>>◌, map_err}
use sexton.Common.Text.{Text, codes, same, elem}
use sexton.Git.Errors.{Fault}
use sexton.Config.Holdout.{
  HoldoutWindowEntry, ResolvedHoldoutWindow, HoldoutError, resolve_holdout_windows,
}
use sexton.Config.Hooks.{
  Machine, HooksConfig, ResolvedHooks, InvalidTimeout, expand_path, resolve_hooks,
}
use sexton.Config.Path.{base}
use sexton.Config.Regions.{InvalidRegion, resolve_commit_regions}

-- `RepoDefaults`, and the fields that `RepoEntry` and `RepoLocalConfig` have as well.
pub record RepoDefaults : Type 0 where
  pub poll_interval : Text
  pub branch : Text
  pub remote : Text
  pub ssh_key : Text
  pub commit_message_prompt : Text
  pub commit_policy : Text
  pub commit_regions : List Text
  pub holdout_windows : List (Option HoldoutWindowEntry)
  pub hooks : Option HooksConfig

pub record RepoEntry : Type 0 where
  pub path : Text
  pub name : Text
  pub settings : RepoDefaults

pub record RepoLocalConfig : Type 0 where
  pub name : Text
  pub settings : RepoDefaults

pub record ResolvedRepo : Type 0 where
  pub path : Text
  pub name : Text
  pub explicit_name : Bool
  pub poll_interval : Duration
  pub branch : Text
  pub remote : Text
  pub ssh_key : Text
  pub commit_message_prompt : Text
  pub commit_policy : Text
  pub commit_regions : List Text
  pub policy_defaulted : Bool
  pub local_config_error : Option Fault
  pub holdout_windows : List ResolvedHoldoutWindow
  pub hooks : ResolvedHooks

pub data ConfigError : Type 0 where
  bad_poll_interval : Fault → ConfigError
  bad_hook_timeout : InvalidTimeout → ConfigError
  bad_holdout : HoldoutError → ConfigError
  bad_commit_policy : Text → ConfigError
  bad_region : InvalidRegion → ConfigError
  no_regions : ConfigError

-- `coalesce`.
unfoldable pub coalesce : List Text → Text
coalesce [] = []
coalesce (v ∷ vs) = let rest = coalesce vs in if is_empty v then rest else v

abbrev pub policy_names : List Text
policy_names = codes "all" ∷ codes "regions" ∷ codes "none" ∷ []

-- `validateCommitPolicy`.
unfoldable pub validate_commit_policy : Text → Result ConfigError (Unit {0})
validate_commit_policy policy =
    if elem policy policy_names then ok tt else err (bad_commit_policy policy)

-- The policy `regions` needs a region.
unfoldable pub require_regions : Text → List Text → Result ConfigError (Unit {0})
require_regions policy regions =
    if same policy (codes "regions") && is_empty regions then err no_regions else ok tt

module _ (machine : Machine) (default_prompt : Text) where
  -- The parts of a resolved configuration that nothing can be wrong with, around those that were
  -- checked.
  abbrev pub assemble :
      RepoEntry
      → RepoDefaults
      → RepoLocalConfig
      → Duration
      → ResolvedHooks
      → List ResolvedHoldoutWindow
      → List Text
      → ResolvedRepo
  assemble entry defaults local poll hooks windows regions =
      let l = local.settings in
      let e = entry.settings in
      let path = expand_path machine entry.path in
      let key = coalesce (l.ssh_key ∷ e.ssh_key ∷ defaults.ssh_key ∷ []) in
      let policy = coalesce (l.commit_policy ∷ e.commit_policy ∷ defaults.commit_policy ∷ []) in
      record {
        path = path;
        name = coalesce (local.name ∷ entry.name ∷ base path ∷ []);
        explicit_name = not (is_empty local.name) || not (is_empty entry.name);
        poll_interval = poll;
        branch = coalesce (l.branch ∷ e.branch ∷ defaults.branch ∷ codes "main" ∷ []);
        remote = coalesce (l.remote ∷ e.remote ∷ defaults.remote ∷ codes "origin" ∷ []);
        ssh_key = if is_empty key then key else expand_path machine key;
        commit_message_prompt = coalesce (
            l.commit_message_prompt ∷ e.commit_message_prompt ∷ defaults.commit_message_prompt
            ∷ default_prompt ∷ []);
        commit_policy = if is_empty policy then codes "none" else policy;
        commit_regions = regions;
        policy_defaulted = is_empty policy;
        local_config_error = none;
        holdout_windows = windows;
        hooks = hooks;
      }

  -- `Resolve` behind the validation of the policy.
  unfoldable pub resolve_regions :
      RepoEntry
      → RepoDefaults
      → RepoLocalConfig
      → Duration
      → ResolvedHooks
      → List ResolvedHoldoutWindow
      → Result ConfigError ResolvedRepo
  resolve_regions entry defaults local poll hooks windows = do
    regions ← map_err bad_region (
        resolve_commit_regions local.settings.commit_regions entry.settings.commit_regions
          defaults.commit_regions)
    require_regions (assemble entry defaults local poll hooks windows []).commit_policy regions
    ok (assemble entry defaults local poll hooks windows regions)

  -- `Resolve` behind the holdout windows.
  unfoldable pub resolve_policy :
      RepoEntry
      → RepoDefaults
      → RepoLocalConfig
      → Duration
      → ResolvedHooks
      → List ResolvedHoldoutWindow
      → Result ConfigError ResolvedRepo
  resolve_policy entry defaults local poll hooks windows = do
    validate_commit_policy (assemble entry defaults local poll hooks windows []).commit_policy
    resolve_regions entry defaults local poll hooks windows

  -- `Resolve` behind the hooks.
  unfoldable pub resolve_windows :
      RepoEntry
      → RepoDefaults
      → RepoLocalConfig
      → Duration
      → ResolvedHooks
      → Result ConfigError ResolvedRepo
  resolve_windows entry defaults local poll hooks = do
    windows ← map_err bad_holdout (
        resolve_holdout_windows defaults.holdout_windows entry.settings.holdout_windows
          local.settings.holdout_windows)
    resolve_policy entry defaults local poll hooks windows

  -- `Resolve` behind the poll interval.
  unfoldable pub resolve_with :
      RepoEntry → RepoDefaults → RepoLocalConfig → Duration → Result ConfigError ResolvedRepo
  resolve_with entry defaults local poll = do
    hooks ← map_err bad_hook_timeout (
        resolve_hooks machine (expand_path machine entry.path) defaults.hooks entry.settings.hooks
          local.settings.hooks)
    resolve_windows entry defaults local poll hooks

  -- The poll interval.
  unfoldable pub resolve_poll :
      RepoEntry → RepoDefaults → RepoLocalConfig → Result ConfigError Duration
  resolve_poll entry defaults local = map_err bad_poll_interval (
      machine.parse_duration (
        coalesce (
          local.settings.poll_interval
          ∷ entry.settings.poll_interval
          ∷ defaults.poll_interval
          ∷ codes "30s"
          ∷ [])))

  -- `Resolve`.
  unfoldable pub resolve :
      RepoEntry → RepoDefaults → RepoLocalConfig → Result ConfigError ResolvedRepo
  resolve entry defaults local = do
    poll ← resolve_poll entry defaults local
    resolve_with entry defaults local poll
