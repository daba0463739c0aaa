-- ===== src/Mattermost/Format.antt =====
-- internal/mattermost/formatter.go: alerts, the table of the repositories, and the short answers.
-- What `build.String` and `time.Duration.String` print are parameters; all times of a table are shown
-- at one reading of the clock.
pub mod Alert
pub mod Table
use sexton.Common.{
  ℕ, ◌+◌, ◌-◌, ◌%◌, Bool, true, false, ◌||◌, Option, none, some, List, [], ◌∷◌, ◌++◌, map, ltb,
  ◌==◌, if◌then◌else◌, is_empty,
}
use sexton.Common.Duration.{Time, second}
use sexton.Common.Space.{trim_space}
use sexton.Common.Text.{Text, codes, same, join}
use sexton.Git.Errors.{Fault}
use sexton.Format.{time_ago}
use sexton.Agent.Sync.World.{AlertFiles, AlertEvent}
use sexton.Mattermost.Visible.{neutral_mattermost_text, mattermost_code_span}

-- `strings.TrimPrefix(s, "@")`.
trim_at : Text → Text
trim_at [] = []
trim_at (c ∷ s) = if c == b'@' then s else c ∷ s

-- What the loop of `formatConfiguredMentions` writes for a name.
unfoldable pub mention : Text → Text
unfolding trim_at
mention user =
    let name = trim_space (trim_at (trim_space user)) in
    if is_empty name then [] else b'@' ∷ (name ++ codes " ")

-- `formatConfiguredMentions`.
unfoldable pub format_configured_mentions : List Text → Text
format_configured_mentions [] = []
format_configured_mentions (u ∷ us) = mention u ++ format_configured_mentions us

-- `formatFileList`.
unfoldable pub format_file_list : Text → List Text → Text
format_file_list label files =
    if is_empty files
    then []
    else codes "\n- "
      ++ (label ++ (codes ": " ++ join (map mattermost_code_span files) (codes ", ")))

-- The switch with which `FormatAlert` begins.
unfoldable pub alert_label : Text → Text
alert_label severity =
    if same severity (codes "error")
    then codes "**error**"
    else if same severity (codes "warning")
    then codes "**warning**"
    else if same severity (codes "attention")
    then codes "**attention**"
    else codes "**info**"

abbrev alert_mentions : Text → List Text → Text
alert_mentions severity users =
    if same severity (codes "attention") then format_configured_mentions users else []

alert_fault : Option Fault → Text
alert_fault none = []
alert_fault (some f) = codes ": " ++ neutral_mattermost_text f.text

alert_commit : Text → Text
alert_commit message =
    if is_empty message then [] else codes "\n> " ++ neutral_mattermost_text message

alert_files : Option AlertFiles → Text
alert_files none = []
alert_files (some f) =
    format_file_list (codes "modified") f.modified
    ++ (format_file_list (codes "added") f.added ++ format_file_list (codes "deleted") f.deleted)

-- `FormatAlert`, of an event of the repository.
unfoldable pub format_alert : Text → AlertEvent → List Text → Text
unfolding alert_fault alert_commit alert_files
format_alert repo e users =
    alert_mentions e.severity users
    ++ (alert_label e.severity
        ++ (codes " ["
            ++ (neutral_mattermost_text repo
                ++ (codes "] "
                    ++ (neutral_mattermost_text e.message
                        ++ (alert_fault e.fault
                            ++ (alert_commit e.commit_message ++ alert_files e.files)))))))

-- The struct `RepoStatus` of commands.go; a zero time is 0.
pub record RepoStatus : Type 0 where
  pub name : Text
  pub path : Text
  pub state : Text
  pub branch : Text
  pub last_sync : Time
  pub last_commit : Text
  pub last_change : Time
  pub error : Text
  pub attention_detail : Text
  pub snooze_remaining : ℕ
  pub holdout_remaining : ℕ

-- A time that is not zero, as long as it is ago.
unfoldable pub shown_time : Time → Time → Text
shown_time now t = if t == 0 then [] else time_ago now t

unfoldable pub shown_detail : RepoStatus → Text
shown_detail s = if is_empty s.error then s.attention_detail else s.error

module _ (show_duration : ℕ → Text) where
  -- `d.Truncate(time.Second)`, in the two states that have an end.
  unfoldable pub shown_state : RepoStatus → Text
  shown_state s =
      if ltb 0 s.holdout_remaining
      then codes "holdout ("
        ++ (show_duration (s.holdout_remaining - s.holdout_remaining % second) ++ codes " left)")
      else if ltb 0 s.snooze_remaining
      then codes "snoozed ("
        ++ (show_duration (s.snooze_remaining - s.snooze_remaining % second) ++ codes " left)")
      else s.state

  -- A line of the table, up to its end.
  unfoldable pub format_row : Time → RepoStatus → Text
  format_row now s =
      codes "| "
      ++ (neutral_mattermost_text s.name
          ++ (codes " | "
              ++ (neutral_mattermost_text (shown_state s)
                  ++ (codes " | "
                      ++ (neutral_mattermost_text s.branch
                          ++ (codes " | "
                              ++ (shown_time now s.last_sync
                                  ++ (codes " | "
                                      ++ (shown_time now s.last_change
                                          ++ (codes " | "
                                              ++ (neutral_mattermost_text (shown_detail s)
                                                  ++ codes " |")))))))))))

  format_rows : Time → List RepoStatus → Text
  format_rows now [] = []
  format_rows now (s ∷ ss) = format_row now s ++ b'\n' ∷ format_rows now ss

abbrev pub table_title : Text
table_title = codes "| repo | state | branch | last sync | last change | detail |"

abbrev pub table_rule : Text
table_rule = codes "|------|-------|--------|-----------|-------------|-------|"

abbrev pub table_end : Text → Text
table_end version = codes "_sexton " ++ (version ++ codes "_")

-- `FormatStatus`.
unfoldable pub format_status : (ℕ → Text) → Text → Time → List RepoStatus → Text
unfolding format_rows
format_status show_duration version now statuses =
    if is_empty statuses
    then codes "no repos configured"
    else table_title
      ++ b'\n'
        ∷ (table_rule
            ++ b'\n' ∷ (format_rows show_duration now statuses ++ b'\n' ∷ table_end version))

-- `FormatSyncResponse`, `FormatResumeResponse`, `FormatError`, of the text of an error, and
-- `FormatHelp`.
unfoldable pub format_sync_response : Text → Text
format_sync_response repo = codes "sync triggered for '" ++ (repo ++ codes "'")

-- `FormatSnoozeResponse`, where `time.Time.Format` for RFC 3339 is a parameter.
unfoldable pub format_snooze_response : (Time → Text) → Text → Time → Text
format_snooze_response rfc3339 repo until =
    codes "snoozed '" ++ (repo ++ (codes "' until " ++ rfc3339 until))

unfoldable pub format_resume_response : Text → Text → Text
format_resume_response message repo =
    if is_empty message || same message (codes "resumed")
    then codes "resumed '" ++ (repo ++ codes "'")
    else message

unfoldable pub format_error : Text → Text
format_error error = codes "error: " ++ error

unfoldable pub format_help : Text
format_help =
    codes "available commands:\n"
    ++ (codes "- **status** [repo] -- show repo status (all repos if omitted)\n"
        ++ (codes "- **sync** <repo> -- trigger an immediate sync\n"
            ++ (codes "- **snooze** <repo> <duration> -- pause sync (e.g. 30m, 2h, 1h30m)\n"
                ++ (codes "- **resume** <repo> -- resume a snoozed or errored repo\n"
                    ++ codes "- **help** -- show this message"))))
