-- ===== src/Slack.antt =====
-- The Slack bot (src/slack_bot).
pub mod Conversation
pub mod Requirements
pub mod Dialogue
pub mod Threads
pub mod Commands
pub mod Bot
pub mod Permissions
pub mod Tests
