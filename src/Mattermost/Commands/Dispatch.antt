-- ===== src/Mattermost/Commands/Dispatch.antt =====
-- Which operations of a handler a command calls.
use sexton.Common.{◌≡◌, refl, Bool, false, ◌||◌, List, [], ◌∷◌, arith}
use sexton.Common.Result.{Result, ok, err}
use sexton.Common.Space.{trim_space, fields}
use sexton.Common.Text.{Text, codes, same}
use sexton.Mattermost.Format.{format_status}
use sexton.Mattermost.Commands.{
  Env, CommandHandler, answered, dispatch_status, dispatch_sync, dispatch_snooze, dispatch_resume,
  dispatch_command, dispatch_tokens, dispatch,
}

-- The commands that change something.
abbrev is_changing : Text → Bool
is_changing cmd = same cmd (codes "sync") || same cmd (codes "snooze") || same cmd (codes "resume")

-- Whether tokens form one of them, with the arguments that it requires.
abbrev is_complete : (Text → Text) → List Text → Bool
is_complete lower [] = false
is_complete lower (cmd ∷ []) = false
is_complete lower (cmd ∷ repo ∷ []) =
    same (lower cmd) (codes "sync") || same (lower cmd) (codes "resume")
is_complete lower (cmd ∷ repo ∷ d ∷ args) = is_changing (lower cmd)

module _ (env : Env) {W : Type 0} (handler : CommandHandler W)
    (reads : (repo : Text) (w : W) → (handler.status repo w).1 ≡ w) where
  answered-world :
      {A : Type 0} (f : A → Text) (r : Result Text A × W) → (answered env handler f r).1 ≡ r.1
  answered-world f (ok a, w) = refl
  answered-world f (err e, w) = refl

  status_reads : (args : List Text) (w : W) → (dispatch_status env handler args w).1 ≡ w
  unfolding dispatch_status
  status_reads [] w = cc (
    answered-world (format_status env.show_duration env.version env.now) (handler.status [] w),
    reads [] w,
  )
  status_reads (a ∷ args) w = cc (
    answered-world (format_status env.show_duration env.version env.now) (handler.status a w),
    reads a w,
  )

  command_reads :
      (cmd : Text) (args : List Text) (w : W)
      → is_complete (λ c. c) (cmd ∷ args) ≡ false
      → (dispatch_command env handler cmd args w).1 ≡ w
  unfolding dispatch_command dispatch_sync dispatch_snooze dispatch_resume
  command_reads cmd [] w h = ground (arith, status_reads [] w)
  command_reads cmd (repo ∷ []) w h = ground (arith, status_reads (repo ∷ []) w)
  command_reads cmd (repo ∷ d ∷ args) w h = ground (arith, status_reads (repo ∷ d ∷ args) w)

  tokens_reads :
      (tokens : List Text) (w : W)
      → is_complete env.lower tokens ≡ false
      → (dispatch_tokens env handler tokens w).1 ≡ w
  unfolding dispatch_tokens
  tokens_reads [] w h = refl
  tokens_reads (cmd ∷ []) w h = command_reads (env.lower cmd) [] w refl
  tokens_reads (cmd ∷ repo ∷ []) w h = command_reads (env.lower cmd) (repo ∷ []) w h
  tokens_reads (cmd ∷ repo ∷ d ∷ args) w h = command_reads (env.lower cmd) (repo ∷ d ∷ args) w h

  -- A text changes nothing if it is not one of the commands `sync`, `snooze` and `resume` with all
  -- the arguments that the command requires, provided that the handler's `status` only reads.
  pub dispatch-reads :
      (text : Text) (w : W)
      → is_complete env.lower (fields (trim_space text)) ≡ false
      → (dispatch env handler text w).1 ≡ w
  unfolding dispatch
  dispatch-reads text w h = tokens_reads (fields (trim_space text)) w h
