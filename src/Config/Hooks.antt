-- ===== src/Config/Hooks.antt =====
-- `resolveHooks` and `ExpandPath` of internal/config/load.go. What the machine answers is a parameter;
-- an entry of a list of hooks is never null here.
use sexton.Common.{◌*◌, Option, none, some, List, [], ◌∷◌, is_empty, if◌then◌else◌}
use sexton.Common.Duration.{Duration, plus, second}
use sexton.Common.Result.{Result, ok, ◌>>=◌, map_err}
use sexton.Common.Text.{Text, codes, same, has_prefix, drop}
use sexton.Git.Errors.{Fault}
use sexton.Config.Holdout.{first_layer}
use sexton.Config.Path.{is_abs, clean, join_path}

-- `os.UserHomeDir`, `os.ExpandEnv` and `time.ParseDuration`.
pub record Machine : Type 0 where
  pub home : Option Text
  pub expand_env : Text → Text
  pub parse_duration : Text → Result Fault Duration

pub record HookEntry : Type 0 where
  pub command : Text
  pub timeout : Text
  pub dir : Text
  pub env : List (Text × Text)

pub record HooksConfig : Type 0 where
  pub pre_commit : List HookEntry
  pub post_commit : List HookEntry
  pub post_pull : List HookEntry
  pub pre_push : List HookEntry
  pub post_sync : List HookEntry

pub record ResolvedHook : Type 0 where
  pub command : Text
  pub timeout : Duration
  pub dir : Text
  pub env : List (Text × Text)

pub record ResolvedHooks : Type 0 where
  pub pre_commit : List ResolvedHook
  pub post_commit : List ResolvedHook
  pub post_pull : List ResolvedHook
  pub pre_push : List ResolvedHook
  pub post_sync : List ResolvedHook

-- "invalid hook timeout …", with the entry's text.
pub record InvalidTimeout : Type 0 where
  pub entry : Text
  pub reason : Fault

-- Thirty seconds.
abbrev pub default_hook_timeout : Duration
default_hook_timeout = plus (30 * second)

abbrev no_hooks : HooksConfig
no_hooks = record {
  pre_commit = [];
  post_commit = [];
  post_pull = [];
  pre_push = [];
  post_sync = [];
}

-- The value of a pointer to a configuration of hooks, or the zero value.
abbrev or_no_hooks : Option HooksConfig → HooksConfig
or_no_hooks none = no_hooks
or_no_hooks (some h) = h

module _ (machine : Machine) where
  abbrev at_home : Text → (Text → Text) → Text
  at_home path within = elim machine.home [ none ↦ path | some home ↦ within home ]

  -- `ExpandPath`.
  unfoldable pub expand_path : Text → Text
  expand_path path =
      if is_empty path
      then path
      else machine.expand_env (
          if has_prefix path (codes "~/")
          then at_home path (λ home. join_path home (drop 2 path))
          else if same path (codes "~")
          then at_home path (λ home. home)
          else path)

  -- `resolveHookDir`.
  unfoldable pub resolve_hook_dir : Text → Text → Text
  resolve_hook_dir repo_root dir =
      if is_empty dir
      then []
      else if is_abs (expand_path dir)
      then clean (expand_path dir)
      else clean (join_path repo_root (expand_path dir))

  hook_timeout : Text → Result InvalidTimeout Duration
  hook_timeout text =
      if is_empty text
      then ok default_hook_timeout
      else map_err (λ f. record { entry = text; reason = f }) (machine.parse_duration text)

  resolve_entries : Text → List HookEntry → Result InvalidTimeout (List ResolvedHook)
  resolve_entries repo_root [] = ok []
  resolve_entries repo_root (e ∷ es) = do
    timeout ← hook_timeout e.timeout
    rest ← resolve_entries repo_root es
    ok (
        record {
          command = e.command;
          timeout = timeout;
          dir = resolve_hook_dir repo_root e.dir;
          env = e.env;
        }
        ∷ rest)

  -- `resolvePhase`.
  unfoldable pub resolve_phase :
      Text → (local entry defaults : List HookEntry) → Result InvalidTimeout (List ResolvedHook)
  unfolding resolve_entries hook_timeout
  resolve_phase repo_root local entry defaults =
      resolve_entries repo_root (first_layer local entry defaults)

  -- `resolveHooks`.
  unfoldable pub resolve_hooks :
      Text → (defaults entry local : Option HooksConfig) → Result InvalidTimeout ResolvedHooks
  resolve_hooks repo_root defaults entry local = do
    let l = or_no_hooks local
    let e = or_no_hooks entry
    let d = or_no_hooks defaults
    pre_commit ← resolve_phase repo_root l.pre_commit e.pre_commit d.pre_commit
    post_commit ← resolve_phase repo_root l.post_commit e.post_commit d.post_commit
    post_pull ← resolve_phase repo_root l.post_pull e.post_pull d.post_pull
    pre_push ← resolve_phase repo_root l.pre_push e.pre_push d.pre_push
    post_sync ← resolve_phase repo_root l.post_sync e.post_sync d.post_sync
    ok (record {
      pre_commit = pre_commit;
      post_commit = post_commit;
      post_pull = post_pull;
      pre_push = pre_push;
      post_sync = post_sync;
    })
