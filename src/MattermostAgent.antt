-- ===== src/MattermostAgent.antt =====
-- apps/mattermost-agent/agent.py: the agent that answers on Mattermost. Times are milliseconds.
pub mod Linking
pub mod Limit
pub mod Posts
pub mod Answer
mod Examples
