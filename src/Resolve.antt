-- ===== src/Resolve.antt =====
-- src/sf/recent_runtime.rs: which relations an anchor token has to other tokens and wallets. The
-- host of a URL, by the crate url, and the parser of timestamps, by chrono, are parameters.
pub mod Identity
pub mod Social
pub mod Candidates
pub mod Rounds
pub mod Canonical
pub mod Emission
pub mod Evidence
pub mod Keys
pub mod Exclusion
mod Examples
