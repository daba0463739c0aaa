-- ===== src/Config/Alerts.antt =====
-- `AlertConfig` and `MattermostConfig` of internal/config/model.go.
use sexton.Common.{Option, List}
use sexton.Common.Text.{Text}

pub record MattermostConfig : Type 0 where
  pub url : Text
  pub token : Text
  pub token_env : Text
  pub channel_id : Text
  pub mention_users : List Text
  pub dm_users : List Text
  pub trigger_words : List Text
  pub allowed_users : List Text

pub record AlertConfig : Type 0 where
  pub kind : Text
  pub mattermost : Option MattermostConfig
