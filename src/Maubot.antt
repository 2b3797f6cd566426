-- ===== src/Maubot.antt =====
-- packages/evoid-maubot/evoid_maubot: the commands of a chat room as intents.
pub mod Command
pub mod Bot
pub mod Jitsi
