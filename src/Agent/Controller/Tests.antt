-- ===== src/Agent/Controller/Tests.antt =====
-- A container of two repositories, and the theorems about lookups at it.
use sexton.Common.{◌≡◌, refl, Bool, true, false, none, [], ◌∷◌, keep, any}
use sexton.Common.Duration.{plus}
use sexton.Common.Result.{ok, err}
use sexton.Common.Sort.{sort}
use sexton.Common.Text.{Text, codes, same, less, split}
use sexton.Config.Path.{base}
use sexton.Config.Repo.{ResolvedRepo}
use sexton.Agent.Controller.{
  resolve_agent, match_single, match_descriptions, find, put_path, put_name, validate_from,
  validate_repo_identifiers, ambiguous_repo,
}
use sexton.Agent.Controller.Lookup.{resolve_agent-path}
use sexton.Agent.Controller.Names.{resolve_agent-name}

-- The configuration of a repository at a path, named `name` if that is not empty.
abbrev repo : Text → Text → Bool → ResolvedRepo
repo path name explicit = record {
  path = path;
  name = name;
  explicit_name = explicit;
  poll_interval = plus 1;
  branch = codes "main";
  remote = codes "origin";
  ssh_key = [];
  commit_message_prompt = [];
  commit_policy = codes "none";
  commit_regions = [];
  policy_defaulted = true;
  local_config_error = none;
  holdout_windows = [];
  hooks = record {
    pre_commit = [];
    post_commit = [];
    post_pull = [];
    pre_push = [];
    post_sync = [];
  };
}

abbrev first : ResolvedRepo
first = repo (codes "/a/notes") (codes "mine") true

abbrev second : ResolvedRepo
second = repo (codes "/b/notes") (codes "notes") false

agents_valid : validate_repo_identifiers (first ∷ second ∷ []) ≡ ok tt
unfolding validate_repo_identifiers validate_from put_path put_name find same
agents_valid = refl

base_ambiguous :
    resolve_agent (codes "notes") (first ∷ second ∷ [])
    ≡ err (record {
      query = codes "notes";
      matches = codes "/b/notes" ∷ codes "mine (/a/notes)" ∷ [];
      cause = ambiguous_repo;
    })
unfolding resolve_agent match_single match_descriptions keep sort same less base split
base_ambiguous = refl

name_run : resolve_agent (codes "mine") (first ∷ second ∷ []) ≡ ok first
unfolding resolve_agent match_single keep same
name_run = refl

resolve_agent-path_example : resolve_agent (codes "/b/notes") (first ∷ second ∷ []) ≡ ok second
resolve_agent-path_example = resolve_agent-path second (first ∷ []) [] agents_valid

resolve_agent-name_example : resolve_agent (codes "mine") (first ∷ second ∷ []) ≡ ok first
unfolding any same
resolve_agent-name_example = resolve_agent-name first [] (second ∷ []) agents_valid refl refl
