-- ===== src/Tests.antt =====
-- Concrete inputs of the theorems, and runs of the code.
mod Data
mod Accounts
mod Teams
mod Submit
mod Event
mod Store
mod Scoring
mod Challenges
mod Board
mod Middleware
mod Lists
mod Cli
