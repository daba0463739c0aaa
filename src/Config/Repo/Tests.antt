-- ===== src/Config/Repo/Tests.antt =====
-- A configuration that resolves, and the theorems about regions and configurations at it.
use sexton.Common.{◌≡◌, refl, true, false, none, some, [], ◌∷◌, any, ◌*◌}
use sexton.Common.Duration.{plus, second}
use sexton.Common.Result.{ok, err}
use sexton.Common.Sort.{sort}
use sexton.Common.Text.{codes, same, elem, split, join, has_prefix}
use sexton.Config.Clock.{parse_clock_minute}
use sexton.Config.Holdout.{first_layer, resolve_holdout_windows, merge_holdout_windows}
use sexton.Config.Hooks.{
  Machine, HooksConfig, expand_path, resolve_hook_dir, resolve_phase, resolve_hooks,
  default_hook_timeout,
}
use sexton.Config.Path.{base, clean, join_path, is_abs, dots, relative_parts, relative_text}
use sexton.Config.Regions.{
  escaping_region, whole_repository, checked_region, normalize_commit_region,
  resolve_commit_regions, IsRegion, normalize_commit_region-IsRegion,
}
use sexton.Config.Repo.{
  RepoDefaults, RepoEntry, RepoLocalConfig, ResolvedRepo, coalesce, validate_commit_policy,
  require_regions, resolve_regions, resolve_policy, resolve_windows, resolve_with, resolve_poll,
  resolve,
}
use sexton.Config.Repo.Resolved.{IsResolved, resolve-IsResolved}

region_run : normalize_commit_region (codes "./notes//a/../b/") ≡ ok (codes "notes/b/")
unfolding normalize_commit_region checked_region is_abs clean relative_parts relative_text dots
    split join same has_prefix
region_run = refl

escape_refused : normalize_commit_region (codes "a/../../b") ≡ err escaping_region
unfolding normalize_commit_region checked_region is_abs clean relative_parts relative_text dots
    split join same has_prefix
escape_refused = refl

whole_refused : normalize_commit_region (codes "a/..") ≡ err whole_repository
unfolding normalize_commit_region checked_region is_abs clean relative_parts relative_text dots
    split join same has_prefix
whole_refused = refl

normalize_commit_region-IsRegion_example : IsRegion (codes "notes/b/")
normalize_commit_region-IsRegion_example =
    normalize_commit_region-IsRegion (codes "./notes//a/../b/") (codes "notes/b/") region_run

abbrev machine : Machine
machine = record {
  home = some (codes "/home/me");
  expand_env = λ t. t;
  parse_duration = λ t. ok (plus (30 * second));
}

abbrev nothing : RepoDefaults
nothing = record {
  poll_interval = [];
  branch = [];
  remote = [];
  ssh_key = [];
  commit_message_prompt = [];
  commit_policy = [];
  commit_regions = [];
  holdout_windows = [];
  hooks = none;
}

abbrev hooks : HooksConfig
hooks = record {
  pre_commit = record { command = codes "make"; timeout = []; dir = codes "tools"; env = [] } ∷ [];
  post_commit = [];
  post_pull = [];
  pre_push = [];
  post_sync = [];
}

abbrev defaults : RepoDefaults
defaults = record nothing { branch = codes "trunk"; commit_policy = codes "all" }

abbrev entry : RepoEntry
entry = record {
  path = codes "~/notes";
  name = [];
  settings = record nothing {
    commit_policy = codes "regions";
    hooks = some hooks;
    holdout_windows = some (record { start = codes "12:00"; end = codes "13:00" }) ∷ [];
  };
}

abbrev local : RepoLocalConfig
local = record {
  name = codes "mine";
  settings = record nothing { commit_regions = codes "doc" ∷ [] };
}

abbrev resolved : ResolvedRepo
resolved = record {
  path = codes "/home/me/notes";
  name = codes "mine";
  explicit_name = true;
  poll_interval = plus (30 * second);
  branch = codes "trunk";
  remote = codes "origin";
  ssh_key = [];
  commit_message_prompt = codes "Summarize";
  commit_policy = codes "regions";
  commit_regions = codes "doc/" ∷ [];
  policy_defaulted = false;
  local_config_error = none;
  holdout_windows = record { start_minute = 720; end_minute = 780 } ∷ [];
  hooks = record {
    pre_commit =
        record {
          command = codes "make";
          timeout = default_hook_timeout;
          dir = codes "/home/me/notes/tools";
          env = [];
        }
        ∷ [];
    post_commit = [];
    post_pull = [];
    pre_push = [];
    post_sync = [];
  };
}

resolve_run : resolve machine (codes "Summarize") entry defaults local ≡ ok resolved
unfolding resolve resolve_poll resolve_with resolve_windows resolve_policy resolve_regions
    require_regions validate_commit_policy coalesce elem any base expand_path resolve_hook_dir
    resolve_phase resolve_hooks resolve_holdout_windows merge_holdout_windows sort
    parse_clock_minute first_layer resolve_commit_regions normalize_commit_region checked_region
    is_abs clean join_path relative_parts relative_text dots split join same has_prefix
resolve_run = refl

resolve-IsResolved_example : IsResolved resolved
resolve-IsResolved_example =
    resolve-IsResolved machine (codes "Summarize") entry defaults local resolved resolve_run
