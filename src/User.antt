-- ===== src/User.antt =====
-- The users of the platform: apps/user/src/user.service.ts over apps/user/repositories.
mod Examples
pub mod Model
pub mod Table
pub mod Change
pub mod SignUp
pub mod Login
pub mod Complete
pub mod Password
pub mod Request
pub mod Held
pub mod Steps
pub mod Kept
pub mod Rules
pub mod Arrived
pub mod Confirmed
pub mod Registered
pub mod Replaced
pub mod Earned
pub mod Progress
pub mod Advanced
pub mod Quiet
pub mod Tokens
pub mod Spent
pub mod Returns
pub mod Answered
