-- ===== src/Lib.antt =====
-- Verification of the core logic of the companion network's server (src/): friendships, blocks,
-- visits between users with the turns that their Companions take, the sessions of devices, and the
-- limits on calls, and the asset packs of Companions.
--
-- The server is a set of Nest services over one Postgres database. The model keeps a table as the
-- list of its rows and a service's operation as a function from the tables, the caller, the
-- arguments and the clock to an error or to the new tables with what is published:
--
-- Base: Boolean tests, tables (Base/Tables), results with the errors of the handlers (Base/Errors),
--   and loops that read rows first and rewrite them one by one (Base/Loops).
-- Social: the tables User, Friendship, FriendRequest and BlockedUser of prisma/schema.prisma, with
--   the queries on a pair of users (assertEligible is is_eligible).
-- Events: what src/common/social-event-publisher.service.ts is asked to publish.
-- Config: src/common/visit-config.service.ts.
-- Friend: src/friend/friend.service.ts. sendFriendRequest is send_friend_request, and so on; blocks
--   and removals are in Friend/Ties, lookups in Friend/Lookup and Friend/Relationship, histories of
--   calls in Friend/History.
-- Presence: src/presence/presence.service.ts.
-- VisitSocial: src/visit-social/visit-social.service.ts, beside the tables of the visits. VisitSocial/
--   Turns has appendTurn with progressRoom and endRoom, VisitSocial/Rooms who may speak and
--   nextActor, VisitSocial/Moments ensureMoment and finalizeMoment, VisitSocial/Relationships
--   settleRelationships, VisitSocial/Shares setShare, and VisitSocial/Text the cleaning of texts of
--   src/visit-social/visit-social.policy.ts. The shares that an acceptance writes are left out. What
--   calls keep is in VisitSocial/Histories, with the numbers of turns in VisitSocial/Numbering, the
--   actors in VisitSocial/Speaking, the topics in VisitSocial/Topics, the ends of rooms in
--   VisitSocial/Limits and VisitSocial/Settling, and the relationships in VisitSocial/Ledger.
-- Identity: login, refreshToken and logout of src/identity/identity.service.ts, validate of
--   src/common/strategies/jwt.strategy.ts and isSessionActive of src/common/socket-auth.service.ts.
-- RateLimit: src/common/guards/social-rate-limit.guard.ts. RateLimit/Doors has
--   src/common/guards/auth-rate-limit.guard.ts and allowAttempt of src/common/socket-auth.service.ts.
-- Pagination: src/common/pagination.ts.
-- AdminRole: promote and demote of src/admin/admin-role.service.ts.
-- Visit: the tables of the visits. Visit/Sessions has markReady, startSession, endSession and
--   heartbeat of src/visit/visit.service.ts, Visit/Ending the sessions that the system ends for
--   friends, blocks and Companions, Visit/Timeouts the clean-up that a timer runs, and
--   Visit/Invitations createInvitation, acceptInvitation, declineInvitation and cancelInvitation,
--   with the copies that they take in Visit/Snapshots. Visit/Room is src/visit/visit-room.service.ts:
--   requests to join, guests who get ready (activate_participant is markParticipantReady) and leave.
-- Companions: src/companion/companion.service.ts. Companions has the publication and the checks of
--   owners, Companions/Topics the topics and the policy of random visits, with Companions/Random.
--   Companions/Packs has the asset packs: Packs/Uploads initiateAssetPack, createUploadUrls and
--   completeAssetPack up to the verification of the files, Packs/Activation
--   activateVerifiedPackInTransaction and the requests that end in it, Packs/Removal deleteAssetPack,
--   abandonExpiredUploads, cleanupSupersededPacks and cleanupActivePackStaging. Packs/Verification has
--   the whole of completeAssetPack over a storage that is a parameter. The statements run
--   in any order in Packs/Jobs. What one may do to the table is in Packs/LifeCycle and Packs/Distinct,
--   what each wrote in Packs/Steps and Packs/Switching, that it is a change of the life cycle in
--   Packs/Changes and Packs/Histories. The theorems on orders of statements are in Packs/Succession,
--   Packs/Quota, Packs/Spared and Packs/Reference, with Packs/OneActive and Packs/Coherence. They are
--   on the statements of the companion service. Two operations of src/portal/portal.service.ts write
--   packs too and are not modelled: deleteAccount sets every pack of the user to deleting, with no
--   test of its status or its upload URLs, and the references to them to null; and
--   deleteSupersededAssetPacks gives up superseded packs without a test of the upload URLs.
-- Examples: a small world on which the theorems are applied.
--
-- The friend service ends visit sessions when a friendship or a block changes; the visits read the
-- social graph to decide who may take part.
--
-- Bounds and conventions. An identifier is only compared, for equality or order, so it is a natural
-- number; a time is a number of milliseconds. A transaction is one step: the services lock the rows of
-- the participants, so that conflicting transactions follow one another, and an error leaves the tables as they were.
-- Three operations of the companion service read before they write, with no transaction around both,
-- and are one step all the same: updateSocialPolicy, whose count and update are two statements, and
-- createUploadUrls and the beginning of completeAssetPack, whose write tests the status again.
-- The clean-up is not in a transaction, and its model keeps the writes before an error. Loops run
-- over a list that was read before, so that no fuel is needed. A unique index that a write would
-- violate is an error of the database. The scores of a relationship, which the database keeps as
-- floating-point numbers, are counted in hundredths. A room has at most 15 turns. The hashes of bcrypt
-- and the signed tokens of the JWT service are the record Crypto, a parameter.
--
-- What the object storage answers, and what the validation of a manifest gives, are arguments. A
-- worker that has claimed an asset pack, or has read it as claimed, writes without a condition later;
-- the packs of such workers are the list in_flight.
--
-- Not modelled: queries that only list or format rows, the object storage, sockets, the web portal
-- and the administration pages; the rows of VisitParticipantReadiness, the tags of topics and shares
-- and the texts of a shared moment. The texts that an invitation copies for display
-- (names, descriptions, tags) are left out, and so is topicSelectedAt. The columns createdAt of most
-- tables and updatedAt of most visit tables, which only order lists, are left out.
pub mod Base
pub mod Config
pub mod Social
pub mod Visit
pub mod Companions
pub mod VisitSocial
pub mod Events
pub mod Friend
pub mod AdminRole
pub mod Presence
pub mod Identity
pub mod RateLimit
pub mod Pagination
pub mod Examples
