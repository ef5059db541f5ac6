-- ===== src/Commands.antt =====
-- internal/commands/commands.go: the handler of one connection and its built-in commands. World,
-- Handlers, Session and Rebuild are the model, the other children are proofs.
pub mod World
pub mod Handlers
pub mod Session
pub mod PubSub
pub mod Stream
pub mod Wait
pub mod Replconf
pub mod Rebuild
pub mod Replies
pub mod ExecLaws
pub mod Transactions
pub mod ExecCases
pub mod Strangers
pub mod Log
pub mod LogText
pub mod RebuildLaws
pub mod RebuildFuel
pub mod Depth
pub mod QueueLaws
