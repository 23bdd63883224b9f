-- ===== src/Lib.antt =====
-- confirmd-platform, a platform for verifiable credentials: the organisation service, the user
-- service, the guards of the gateway, and the checks around issuing credentials.
--
-- The program is a set of NestJS services. The gateway (apps/api-gateway) checks each request by its
-- guards and sends it as a message to a service; a service answers by reading and writing tables
-- through Prisma, and by calling Keycloak, an agent, a store and a mail service. This library models
-- the organisation service with its roles (apps/organization, libs/user-org-roles, libs/org-roles),
-- sign-up, sign-in and passwords of the user service (apps/user), the client of Keycloak
-- (libs/client-registration), the guards, and pure code of issuance and of libs/common.
--
-- How a method is modelled. An asynchronous method is an action (Effect): from the history of the
-- calls made for their effect, the newest first, to an outcome and a longer history. Outcome has the
-- exceptions of the source. What is outside the service is a parameter, the record World of
-- Organization/Model/World: one answer for each query, message or call, which may depend on the
-- history and may be an error. A failed call stays in the history, since what it has done is unknown.
-- The user service keeps its tables in the model: its actions run on the record Store of User/Model,
-- and the outside of it is the record Services, whose answers may differ at each step. The requests
-- to it are taken one after the other, so two that run at the same time are not covered. Triple says
-- what an action does to a state, and User/Rules what a claim on the tables needs so that every
-- request keeps it. Calls that are not awaited, or stand in a Promise.all, are made in the order of
-- the source and their outcomes looked at later (`start`, `run_all`). Trace has the relation Made
-- between two histories, which the safety theorems use. Texts are lists of UTF-16 code units (Common/Texts).
--
-- Files:
--   Common, Outcome, Effect, Trace, Triple: shared names, results, actions, histories, conditions.
--   Naming: createOrgSlug and maskString of apps/organization/src/organization.service.ts.
--   Cast: toNumber of libs/common/src/cast.helper.ts.
--   Did: validateDid of libs/common/src/validator.ts, networkNamespace of
--     libs/common/src/common.utils.ts and the namespace of setPrimaryDid.
--   Access: OrgRolesGuard, UserAccessGuard and UserRoleGuard of apps/api-gateway/src/authz/guards.
--   Attributes: validateW3CSchemaAttributes of apps/issuance/libs/helpers/attributes.validator.ts.
--   Issuance: splitIntoBatches, _storeBulkPayloadInBatch, validateFileHeaders and validateFileData
--     of apps/issuance/src/issuance.service.ts.
--   Offers: outOfBandCredentialOffer, sendEmailForCredentialOffer and getAgentUrl of
--     apps/issuance/src/issuance.service.ts; Delivered and Returned are about what was done, Checked
--     about what was looked at before, Placed about the addresses.
--   Bulk: the jobs of a bulk issuance, of apps/issuance/src/issuance.service.ts: the tables and the
--     repository; Bulk/Job is processIssuanceData, Bulk/Queue processInBatches, issueBulkCredential
--     and retryBulkCredential. Settled and Processed follow one job, Finished a run; Described says
--     what both do without the functions of the service; Kept and Retried are about a retry, Queued and
--     Issued about the queue.
--   Schemas: validateSchemaPayload of libs/common/src/cast.helper.ts.
--   Organization/Model: rows, requests, calls and the outside world.
--   Organization/Roles, Token: libs/user-org-roles, and the choice of a management token.
--   Organization/Invite: createInvitation with createInvitationByOrgRoles and
--     createInvitationByClientRoles.
--   Organization/Respond: updateOrgInvitation, updateClientInvitation, and the transition table of
--     libs/enum/src/enum.ts.
--   Organization/Members: updateUserRoles and updateUserClientRoles.
--   Organization/Register: registerToKeycloak, createOrgCredentials, deleteClientCredentials.
--   Organization/Create: createOrganization, isValidBase64, uploadFileToS3.
--   Organization/Update: updateOrganization and _createConnection, with calls and outside of their own.
--   Organization/Delete: deleteOrg of apps/organization/repositories/organization.repository.ts, on
--     tables, with the transaction and the updates outside of it.
--   Organization/Delete/Handler: deleteOrganization around deleteOrg: the roles at Keycloak, the mails
--     to the members, the records of the deletion; getUserKeycloak of apps/user. Committed is about the
--     transaction; Calls, Informed and Removed about the handler.
--   Organization/PrimaryDid: setPrimaryDid.
--   User/Model, User/Table: tables and outside of apps/user, and the operations of
--     apps/user/repositories/user.repository.ts on the tables.
--   Secret: decryptPassword and decryptString of libs/common/src/common.service.ts.
--   Keycloak: libs/client-registration: createUser with its search loop, tokens, secrets of clients;
--     Keycloak/Refresh is refreshTokenDetails of apps/user over it.
--   User/SignUp, User/Complete: sendVerificationMail, verifyEmail; createUserForToken, addPasskey.
--   User/Login, User/Password: login and generateToken; forgotPassword, resetTokenPassword and
--     resetPassword.
--   User/Request: the requests, one after the other. The other files of User are about what these
--     keep and reach: Held, Rules, Steps, Kept, Arrived, Confirmed, Registered, Replaced, Earned for
--     the table of users, Progress and Advanced for the state machine of an address, Quiet, Tokens and
--     Spent for the links of forgotPassword, Returns and Answered for runs in which all is answered.
--   Paging: paginator of libs/common/src/common.utils.ts.
--   Examples and the Examples of a part: concrete inputs and a concrete outside world.
--
-- Fuel: only splitIntoBatches needs it. Its loop advances by the size of a batch, so one step more
-- than the length of the list is enough for every size but 0; the source calls it with 100. createUser
-- of the client of Keycloak searches three times, a count of the source. All other loops run over
-- lists.
--
-- Not modelled: logging; the texts of messages and mails, of which only the constant matters; HTTP,
-- Prisma, Keycloak's server and the mail service, which are parameters; the other services (agents,
-- ledger, verification, connections, cloud wallets, notifications); of the organisation service,
-- registerOrgsMapUsers and the methods that only read. Of the user service, profiles, invitations and
-- the settings of the platform; toLowerCase over Unicode is a parameter there. Rounding of numbers from
-- 2 ^ 53 on is not modelled in Cast.
-- Inherited properties of JavaScript objects are not modelled in Attributes and Access.
pub mod Access
pub mod Attributes
pub mod Bulk
pub mod Cast
pub mod Common
pub mod Did
pub mod Effect
pub mod Examples
pub mod Issuance
pub mod Keycloak
pub mod Naming
pub mod Offers
pub mod Organization
pub mod Outcome
pub mod Paging
pub mod Schemas
pub mod Secret
pub mod Trace
pub mod Triple
pub mod User
