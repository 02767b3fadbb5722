-- ===== src/Tests.antt =====
-- Runs of the model on concrete inputs, and each theorem at an input that meets its hypotheses.
mod Policy
mod Values
mod Transactions
mod Batch
mod Log
mod Creation
mod Delivery
mod Names
mod Rows
mod Commits
mod Requests
mod Contracts
mod Composition
