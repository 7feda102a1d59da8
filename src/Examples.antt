-- ===== src/Examples.antt =====
-- The theorems at concrete inputs, and tests of the definitions by evaluation.
mod Rounding
mod Data
mod Judge
mod Governance
mod Access
mod Delivery
mod Tools
mod Context
mod Agents
mod Arms
mod Experiment
mod Clients
mod Reports
mod Program
