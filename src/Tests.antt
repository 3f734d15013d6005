-- ===== src/Tests.antt =====
-- Concrete inputs for the theorems, and runs of the code on them.
pub mod Jobs
pub mod Service
pub mod Limits
pub mod Accounts
pub mod Submissions
pub mod Extractions
pub mod Offices
pub mod Interleavings
pub mod Generations
pub mod Starts
pub mod Crops
pub mod Masks
pub mod Lists
pub mod Answers
pub mod Views
pub mod Mails
pub mod Rushes
