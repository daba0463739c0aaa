-- ===== src/Git/Command.antt =====
-- How internal/git/git.go runs git: `runCtxEnv`, over the process that is started. Of a started
-- command an observer sees the arguments, the latest command first.
use sexton.Common.{◌||◌, not, Option, none, some, List, [], ◌∷◌, ◌++◌, is_empty, if◌then◌else◌}
use sexton.Common.Duration.{Time}
use sexton.Common.Result.{Result, ok, err}
use sexton.Common.Text.{Text, codes}
use sexton.Git.Errors.{Fault}

-- What is left of a process: its two outputs, the error of `cmd.Run`, and that of the context then.
pub record Exit : Type 0 where
  pub stdout : Text
  pub stderr : Text
  pub run_error : Option Fault
  pub context_error : Option Fault

-- The process, given its environment if one is set, and its arguments; the environment of the agent
-- itself; `strconv.Quote`; and `time.Parse` with the layout RFC 3339.
pub record Host (W : Type 0) : Type 0 where
  pub start_git : Option (List Text) → List Text → W → Exit × W
  pub environ : List Text
  pub quote : Text → Text
  pub parse_rfc3339 : Text → Result Fault Time

-- An error of a command, with the output that stands beside it.
pub record Failure : Type 0 where
  pub output : Text
  pub fault : Fault

pub record Shell (W : Type 0) : Type 0 where
  pub world : W
  pub commands : List (List Text)

abbrev pub G : Type 0 → Type 0 → Type 0
G W A = Shell W → Result Fault A × Shell W

abbrev pub return : {W A : Type 0} → A → G W A
return a s = (ok a, s)

abbrev pub throw : {W A : Type 0} → Fault → G W A
throw f s = (err f, s)

infixl 5 ◌>>=◌ ◌>>◌
abbrev pub ◌>>=◌ : {W A B : Type 0} → G W A → (A → G W B) → G W B
◌>>=◌ m f s = elim (m s).0 [ err e ↦ (err e, (m s).1) | ok a ↦ f a (m s).1 ]

abbrev pub ◌>>◌ : {W A B : Type 0} → G W A → G W B → G W B
m >> k = m >>= λ _. k

-- A result that is looked at, `if err != nil` being asked by what follows.
abbrev pub try : {W A : Type 0} → G W A → G W (Result Fault A)
try m s = (ok (m s).0, (m s).1)

abbrev pub or_throw : {W A : Type 0} → Result Fault A → G W A
or_throw (ok a) = return a
or_throw (err f) = throw f

-- The string and the error that `runCtxEnv` returns. A context that is over hides the output.
unfoldable pub returned : Exit → Result Failure Text
returned x = elim x.run_error [
  | none ↦ ok x.stdout
  | some e ↦ elim x.context_error [
    | some c ↦ err (record { output = []; fault = c })
    | none ↦ err (record { output = if is_empty x.stderr then x.stdout else x.stderr; fault = e })
  ]
]

module _ {W : Type 0} (host : Host W) (ssh_command : Text) where
  -- `cmd.Env`, left unset where nothing is added to the agent's own.
  unfoldable pub command_env : List Text → Option (List Text)
  command_env extra =
      if not (is_empty extra) || not (is_empty ssh_command)
      then some (
          (host.environ ++ extra)
          ++ (if is_empty ssh_command then [] else (codes "GIT_SSH_COMMAND=" ++ ssh_command) ∷ []))
      else none

  -- `runCtxEnv` and `runCtx`.
  unfoldable pub run_env : List Text → List Text → G W (Result Failure Text)
  run_env extra args s =
      let r = host.start_git (command_env extra) args s.world in
      (ok (returned r.0), record { world = r.1; commands = args ∷ s.commands })

  unfoldable pub run : List Text → G W (Result Failure Text)
  run args = run_env [] args

  abbrev pub or_fault : Result Failure Text → G W Text
  or_fault (ok out) = return out
  or_fault (err x) = throw x.fault

  -- `out, err := g.runCtx(ctx, args...)`, with `if err != nil { return err }`.
  unfoldable pub run_or : List Text → G W Text
  run_or args = do r ← run args; or_fault r
