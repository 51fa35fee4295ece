-- ===== src/Signup.antt =====
-- Who may create an account (auth/signup/): the unit of the limits in Network, the rules in Guard,
-- and in Policy what is decided before an account exists and done after.
pub mod Network
pub mod Buckets
pub mod Guard
pub mod Policy
pub mod Links
pub mod Ceiling
pub mod Domains
mod Examples
