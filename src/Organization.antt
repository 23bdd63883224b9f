-- ===== src/Organization.antt =====
-- The organisation service, apps/organization, with the roles of its members (libs/user-org-roles,
-- libs/org-roles).
pub mod Model
pub mod Roles
pub mod Token
pub mod Invite
pub mod Respond
pub mod Members
pub mod Register
pub mod Create
pub mod Update
pub mod Delete
pub mod PrimaryDid
mod Examples
