-- ===== src/Platform.antt =====
-- The platform that the entities run on: the database behind the repositories, the blob store, the
-- async jobs and the application service.
pub mod Database
pub mod Repos
pub mod Columns
mod ColumnExamples
pub mod Jobs
pub mod Service
pub mod Steps
pub mod History
pub mod WalletHistory
pub mod Genuine
pub mod GenuineWallet
pub mod Dispatch
pub mod Consistent
pub mod Committed
pub mod Commits
pub mod Toy
mod Runs
pub mod States
mod JobExamples
mod ServiceExamples
mod AcceptedExamples
mod FinishExamples
mod ReimportExamples
pub mod AppendToy
mod HistoryExamples
