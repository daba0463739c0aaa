-- ===== src/Mattermost/Commands.antt =====
-- internal/mattermost/commands.go: the commands of the chat over any handler of them. The standard
-- library's `strings.ToLower`, `time.ParseDuration`, `time.Time.Format` and `time.Duration.String`,
-- the clock and the version are an `Env`. An error is its text.
pub mod Dispatch
pub mod Trigger
use sexton.Common.{
  ℕ, zero, suc, ◌≡◌, refl, Bool, true, false, ◌||◌, not, Option, none, some, List, [], ◌∷◌, ◌++◌,
  ltb, ◌==◌, if◌then◌else◌, length,
}
use sexton.Common.Duration.{Time, Duration}
use sexton.Common.Result.{Result, ok, err}
use sexton.Common.Space.{trim_space, fields}
use sexton.Common.Text.{Text, codes, same, has_prefix}
use sexton.Mattermost.Format.{
  RepoStatus, format_status, format_sync_response, format_snooze_response, format_resume_response,
  format_error, format_help,
}

pub record Env : Type 0 where
  pub lower : Text → Text
  pub parse_duration : Text → Result Text Duration
  pub rfc3339 : Time → Text
  pub show_duration : ℕ → Text
  pub version : Text
  pub now : Time

-- `CommandHandler`, whose operations may change a world.
pub record CommandHandler (W : Type 0) : Type 0 where
  pub status : Text → W → Result Text (List RepoStatus) × W
  pub sync : Text → W → Option Text × W
  pub snooze : Text → Duration → W → Result Text Time × W
  pub resume : Text → W → Result Text Text × W

module _ (env : Env) {W : Type 0} (handler : CommandHandler W) where
  -- A result as the text that answers it.
  abbrev pub answered : {A : Type 0} → (A → Text) → Result Text A × W → Text × W
  answered f (ok a, w) = (f a, w)
  answered f (err e, w) = (format_error e, w)

  -- `args[0]`, or no text.
  abbrev first_arg : List Text → Text
  first_arg [] = []
  first_arg (a ∷ args) = a

  -- `dispatchStatus`.
  unfoldable pub dispatch_status : List Text → W → Text × W
  dispatch_status args w =
      answered (format_status env.show_duration env.version env.now)
        (handler.status (first_arg args) w)

  unfoldable pub synced : Text → Option Text × W → Text × W
  synced repo (none, w) = (format_sync_response repo, w)
  synced repo (some e, w) = (format_error e, w)

  -- `dispatchSync`.
  unfoldable pub dispatch_sync : List Text → W → Text × W
  unfolding synced
  dispatch_sync [] w = (codes "sync requires a repo argument", w)
  dispatch_sync (repo ∷ args) w = synced repo (handler.sync repo w)

  snooze_parsed : Text → Text → Result Text Duration → W → Text × W
  snooze_parsed repo text (err e) w = (codes "invalid duration '" ++ (text ++ codes "'"), w)
  snooze_parsed repo text (ok d) w =
      answered (format_snooze_response env.rfc3339 repo) (handler.snooze repo d w)

  -- `dispatchSnooze`.
  unfoldable pub dispatch_snooze : List Text → W → Text × W
  unfolding snooze_parsed
  dispatch_snooze [] w = (codes "snooze requires a repo and duration argument", w)
  dispatch_snooze (repo ∷ []) w = (codes "snooze requires a repo and duration argument", w)
  dispatch_snooze (repo ∷ text ∷ args) w = snooze_parsed repo text (env.parse_duration text) w

  -- `dispatchResume`.
  unfoldable pub dispatch_resume : List Text → W → Text × W
  dispatch_resume [] w = (codes "resume requires a repo argument", w)
  dispatch_resume (repo ∷ args) w =
      answered (λ message. format_resume_response message repo) (handler.resume repo w)

  -- The switch of `Dispatch`, on the lower case of the first token.
  unfoldable pub dispatch_command : Text → List Text → W → Text × W
  dispatch_command cmd args w =
      if same cmd (codes "status")
      then dispatch_status args w
      else if same cmd (codes "sync")
      then dispatch_sync args w
      else if same cmd (codes "snooze")
      then dispatch_snooze args w
      else if same cmd (codes "resume")
      then dispatch_resume args w
      else if same cmd (codes "help")
      then (format_help, w)
      else (codes "unknown command '" ++ (cmd ++ (codes "'\n\n" ++ format_help)), w)

  dispatch_tokens : List Text → W → Text × W
  dispatch_tokens [] w = (format_help, w)
  dispatch_tokens (cmd ∷ args) w = dispatch_command (env.lower cmd) args w

  -- `Dispatch`; its second result is always true.
  unfoldable pub dispatch : Text → W → (Text × Bool) × W
  unfolding dispatch_tokens
  dispatch text w = let r = dispatch_tokens (fields (trim_space text)) w in ((r.0, true), r.1)

-- What `StripTriggerWord` ends with. A slice out of range panics.
pub data Stripped : Type 0 where
  unmatched : Stripped
  matched : Text → Stripped
  panicked : Stripped

-- `s[n:]`.
unfoldable pub slice_from : ℕ → Text → Option Text
slice_from zero s = some s
slice_from (suc n) [] = none
slice_from (suc n) (c ∷ s) = slice_from n s

-- What the tests behind the slice make of it: `none` goes on with the next word.
unfoldable pub at_boundary : Option Text → Option Stripped
at_boundary none = some panicked
at_boundary (some []) = some (matched [])
at_boundary (some (c ∷ rest)) =
    if c == b' ' || c == b'\t' then some (matched (trim_space (c ∷ rest))) else none

abbrev or_next : Option Stripped → Stripped → Stripped
or_next none next = next
or_next (some s) next = s

module _ (lower : Text → Text) where
  -- One round of the loop of `StripTriggerWord`.
  unfoldable pub strip_word : Text → Text → Option Stripped
  strip_word text word =
      if has_prefix (lower text) (lower word)
      then at_boundary (slice_from (length word) text)
      else none

  -- `StripTriggerWord`.
  unfoldable pub strip_trigger_word : Text → List Text → Stripped
  strip_trigger_word text [] = unmatched
  strip_trigger_word text (word ∷ words) =
      let next = strip_trigger_word text words in or_next (strip_word text word) next
