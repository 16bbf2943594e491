-- ===== src/Witnesses.antt =====
-- The theorems at concrete inputs: errors and transactions of the wallet service, the relay, and the
-- middleware chain.
mod Errors
mod Relay
mod Access
mod Close
mod Payments
mod Settings
mod Lists
mod Reversals
mod Decisions
mod Connector
