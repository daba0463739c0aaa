-- ===== src/Mattermost/Tests.antt =====
-- The theorems about the texts and the commands of the chat at concrete texts.
use sexton.Common.{
  ℕ, suc, ◌+◌, ◌*◌, ◌≤◌, ◌<◌, ◌≡◌, ◌↔◌, refl, true, false, none, some, [], ◌∷◌, ◌++◌, map, All,
  arith, length,
}
use sexton.Common.Duration.{plus, second}
use sexton.Common.Result.{ok}
use sexton.Common.Space.{trim_space, fields, to_lower, contains}
use sexton.Common.Text.{Text, codes, same, has_prefix, split, decimal}
use sexton.Agent.Sync.World.{AlertEvent}
use sexton.Format.{TimeUnit, duration_ago, duration_ago_bounds, suffix, length_of, HasRoom}
use sexton.Mattermost.Visible.{
  neutral_mattermost_text, visible_mattermost_text, mattermost_code_span, quoted, ticks,
}
use sexton.Mattermost.Runes.{runes}
use sexton.Mattermost.Visible.Safe.{IsPrintable, IsShown}
use sexton.Mattermost.Visible.ReadBack.{read_back, read_back-neutral_mattermost_text}
use sexton.Mattermost.Visible.Neutral.{is_muted}
use sexton.Mattermost.Visible.Span.{mattermost_code_span_safe}
use sexton.Mattermost.Format.{
  RepoStatus, format_row, format_status, table_title, table_rule, table_end,
}
use sexton.Mattermost.Format.Table.{IsRow, format_status-lines}
use sexton.Mattermost.Commands.{Env, CommandHandler, dispatch, panicked, strip_word}
use sexton.Mattermost.Commands.Dispatch.{dispatch-reads}
use sexton.Mattermost.Commands.Trigger.{strip_word-panicked}

duration_ago_bounds_example :
    (n : ℕ) × (unit : TimeUnit) × (duration_ago (plus (3725 * second)) ≡ decimal n ++ suffix unit)
    × (n * length_of unit ≤ 3725 * second)
    × (3725 * second < (n + 1) * length_of unit)
    × HasRoom unit n
duration_ago_bounds_example = duration_ago_bounds (plus (3725 * second))

abbrev loud : Text
loud = 0xc2 ∷ 0x85 ∷ codes "@all *see*\n`x`|y"

loud_run : neutral_mattermost_text (codes "@a*\n") ≡ b'@' ∷ 0xe2 ∷ 0x80 ∷ 0x8b ∷ codes "a\\*\\\\n"
unfolding neutral_mattermost_text sexton.Mattermost.Visible.neutral_rune
    sexton.Mattermost.Visible.show_rune visible_mattermost_text sexton.Mattermost.Runes.write_each
    sexton.Mattermost.Runes.runes_from sexton.Mattermost.Runes.rune_size
    sexton.Mattermost.Visible.is_markup
loud_run = refl

read_back-neutral_mattermost_text_example :
    read_back (neutral_mattermost_text loud) ≡ visible_mattermost_text loud
read_back-neutral_mattermost_text_example = read_back-neutral_mattermost_text loud

mattermost_code_span_safe_example :
    (n : ℕ) × (mattermost_code_span loud ≡ ticks n ++ (quoted loud ++ ticks n))
    × (contains (quoted loud) (ticks n) ≡ false)
    × All IsPrintable (quoted loud)
    × All IsShown (runes (quoted loud))
    × (is_muted (mattermost_code_span loud) ≡ true)
mattermost_code_span_safe_example = mattermost_code_span_safe loud

abbrev pub event : AlertEvent
event = record {
  severity = codes "attention";
  message = codes "ask @all";
  fault = none;
  files = none;
  commit_message = [];
}

abbrev pub status_line : RepoStatus
status_line = record {
  name = codes "no|tes";
  path = codes "/notes";
  state = codes "error";
  branch = codes "main";
  last_sync = 5 * second;
  last_commit = [];
  last_change = 0;
  error = codes "a\nb";
  attention_detail = [];
  snooze_remaining = 0;
  holdout_remaining = 0;
}

format_status-lines_example :
    (split b'\n' (format_status decimal (codes "v1") (9 * second) (status_line ∷ []))
      ≡ table_title
        ∷ table_rule
        ∷ (map (format_row decimal (9 * second)) (status_line ∷ [])
            ++ ([] ∷ table_end (codes "v1") ∷ [])))
    × All IsRow (map (format_row decimal (9 * second)) (status_line ∷ []))
format_status-lines_example =
    format_status-lines decimal (9 * second) (codes "v1") status_line [] (omega arith)

abbrev pub library : Env
library = record {
  lower = to_lower;
  parse_duration = λ text. ok (plus second);
  rfc3339 = decimal;
  show_duration = decimal;
  version = codes "v1";
  now = 9 * second;
}

-- A handler that counts what it is asked to change.
abbrev pub counter : CommandHandler ℕ
counter = record {
  status = λ repo w. (ok (status_line ∷ []), w);
  sync = λ repo w. (none, suc w);
  snooze = λ repo d w. (ok 0, suc w);
  resume = λ repo w. (ok (codes "resumed"), suc w);
}

dispatch-reads_example : (dispatch library counter (codes " Status notes") 3).1 ≡ 3
unfolding fields to_lower trim_space same
dispatch-reads_example =
    dispatch-reads library counter (λ repo w. refl) (codes " Status notes") 3 refl

-- The Kelvin sign, of which the lower case is one byte.
strip_word-panicked_example :
    (strip_word to_lower (codes "k") (0xe2 ∷ 0x84 ∷ 0xaa ∷ []) ≡ some panicked) ↔ (
      (has_prefix (to_lower (codes "k")) (to_lower (0xe2 ∷ 0x84 ∷ 0xaa ∷ [])) ≡ true)
      × (length (codes "k") < 3))
strip_word-panicked_example = strip_word-panicked to_lower (codes "k") (0xe2 ∷ 0x84 ∷ 0xaa ∷ [])

kelvin_run : strip_word to_lower (codes "k") (0xe2 ∷ 0x84 ∷ 0xaa ∷ []) ≡ some panicked
unfolding strip_word to_lower has_prefix sexton.Mattermost.Commands.slice_from
    sexton.Mattermost.Commands.at_boundary trim_space
kelvin_run = refl
