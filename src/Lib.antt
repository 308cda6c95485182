-- ===== src/Lib.antt =====
-- The ShipFlow backend: a verification library for the core of backend/src.
--
-- ShipFlow is a multi-tenant service. Organizations have members with roles; every request to an
-- organization's data passes the role's capabilities; organizations store files within the quota of
-- their billing plan; the services tell users of changes by notices that they write in their own
-- transactions. The services keep all state in a database, which they reach through the Prisma
-- client.
--
-- Database holds the client's queries on one table, a list of rows, with their laws (Laws), the
-- order-by clause (Ordering), the laws of tables with a primary key (Keys) and of updates (Writes).
-- Common holds the lists over the native numbers (Lists), Boolean tests (Tests) and the results of
-- the services (Results): a service method is a function from the tables it touches to a result,
-- which is a value or the exception class that it throws, and the tables after it. A transaction
-- that throws restores the tables.
--
-- Authorization: backend/src/authorization. ROLE_CAPABILITIES and AuthorizationService, method by
--   method. Roles has the roles and capabilities, Laws what the checks mean.
-- Organizations: backend/src/organizations/organizations.service.ts with the tenant lookups of
--   organization-context.service.ts. Members has the role changes, removal, leaving and the
--   transfer of ownership; Invitations the life of an invitation; Tenants creates, lists and
--   deletes organizations, whose slugs Slugs makes. Slugs/Format is about the check of the slug
--   column, Tenants/Creation about the loop over suffixes, Tenants/Deletion about what is left.
--   Members/Ownership and Members/Transfer prove what becomes of the owners, Invitations/Acceptance
--   who may join.
-- Notifications: backend/src/notifications. Writer is notification.writer.ts and the pruning
--   service, Reader is notifications.service.ts.
-- Auth: backend/src/auth. Sessions has login, refresh and signing out of auth.service.ts, Passwords
--   its password reset, Registration its sign-up and the verification of addresses, TwoFactor
--   two-factor/two-factor.service.ts. Registration/Addresses says whose address is verified,
--   Sessions/Rotation counts the live sessions of a token family, Sessions/Reuse follows a token
--   that is presented twice, BackupCodes is two-factor/backup-code.service.ts with the proofs about
--   what is entered (Accepted) and what is generated (Distinct, Fill, Generated); TwoFactor/Setup is the setup,
--   with TwoFactor/Setup/Status. TwoFactor/Claims and TwoFactor/FirstFactor say what the factors
--   give, Passwords/Reset what a reset leaves.
-- Billing: backend/src/billing. Reservations is reserveCheckout of billing.service.ts and Checkout
--   its other methods, Entitlements is billing-entitlement.service.ts, Subscriptions and Webhooks
--   are the synchronisation and the events of stripe-webhook.service.ts. Subscriptions/Frame says
--   what a synchronisation leaves alone, Rows what it does to the table, Order what deliveries in
--   any order leave (against Replay), History that times only move on, Access what reports mean for entitlements;
--   Webhooks/Once is about repeated deliveries, Webhooks/Deliveries about every delivery,
--   Reservations/Usable about what a request for a checkout gets.
-- Email: backend/src/email. Sending is transactional-email.service.ts, Webhooks
--   resend-webhook.service.ts; Sending/Bounds and Sending/Totals count the attempts, Webhooks/Order
--   is about events in any order.
-- Files: backend/src/files. Service is files.service.ts, Maintenance is
--   file-maintenance.service.ts; Local has its uploads and downloads of local files (Local/Stored
--   is about the uploads), Listing its readers; Changes has what each method writes into a row,
--   Storage the interfaces of the object store and the malware scanner. Lifecycle states the
--   allowed changes of state and the database's constraint on a row, with proofs for the queries
--   (Lifecycle/Table) and the methods (Lifecycle/Service); Scans and Verdicts are about the scan
--   loop, Limits about the quota, Purges and Orphans about what is spared by the deletions;
--   ContentValidation is file-validation.service.ts, Content has what each detection accepts and
--   Accepted what is known of an accepted upload; Sound and Upkeep carry the soundness of the table
--   through maintenance, and History through sequences of calls.
--
-- Times are milliseconds on the native numbers, ids are numbers, texts that are only displayed are
-- left out. The clock's readings and the random ids of a call are its arguments, in the order in
-- which the code asks for them. Loops run over the rows or objects that one query gave and are
-- recursions on that list, so no fuel is needed, and the loops over attempts and slug suffixes on
-- the number that is left; the queries of maintenance give a hundred rows at most. The object
-- store, the malware scanner, the payment provider, the mail provider, the hashes of contents,
-- tokens and passwords, Unicode conversions, the JSON parser, one-time codes and the normal form of
-- addresses are records or functions that the definitions take as parameters.
--
-- Not modelled: HTTP controllers and DTO decorators, logging, Swagger, configuration, the Prisma
-- client's generated code, the concrete storage and scanner providers, audit records, mail
-- templates, OAuth and the profile update, the guards on requests, the list of invitations for
-- display, the list of billing plans, and the web frontend.
pub mod Common
pub mod Database
pub mod Authorization
pub mod Files
pub mod Notifications
pub mod Organizations
pub mod Auth
pub mod Billing
pub mod Email
