-- ===== src/Mattermost/Format/Alert.antt =====
-- Whom an alert of `FormatAlert` mentions.
use sexton.Common.{◌++◌}
use sexton.Common.Text.{Text, codes}
use sexton.Agent.Sync.World.{AlertEvent}
use sexton.Mattermost.Visible.{neutral_mattermost_text}
use sexton.Mattermost.Format.{alert_label, alert_fault, alert_commit, alert_files}

-- The text of an alert behind its mentions.
body : Text → AlertEvent → Text
body repo e =
    alert_label e.severity
    ++ (codes " ["
        ++ (neutral_mattermost_text repo
            ++ (codes "] "
                ++ (neutral_mattermost_text e.message
                    ++ (alert_fault e.fault
                        ++ (alert_commit e.commit_message ++ alert_files e.files))))))
