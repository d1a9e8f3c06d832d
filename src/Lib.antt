-- ===== src/Lib.antt =====
-- authnd: an LDAP server that publishes people and groups read from several sources, answers
-- binds by asking a person's own source, and writes password changes to its configuration files.
-- This library models the parts of it that decide something, and proves what they are for.
--
-- The parts, and where each is modelled:
--   config.go, limits.go, refresh.go, samba.go, kerberos.go (what `check` accepts): Config holds
--     the blocks as records and the errors as a data type; Config/Check is `check`, in its order;
--     Config/Limits, Config/Refresh, Config/Samba and Config/Kerberos are checkLimits, checkRefresh
--     and maxAge, checkSamba, parseSID and sambaSID, and checkKerberos.
--   limits.go (acquireCheck, releaseCheck, within): Pending; Pending/Pool is the same counts with
--     the goroutines that still wait, as a step relation. startup: Startup, as the steps of the
--     goroutine that opens the sources and of the one that waits for it.
--   factors.go (knowledge, afterPassword, splitCode): Factors. The state that the two factors of a
--     bind share is `World`; go-authn/mfa's Verify is the parameter `Mfa`, and totp's Verifier the
--     parameter `Count`.
--   roster.go (newRoster, foldName): Roster. unicode.SimpleFold is a parameter; an orbit has at most
--     four runes, so four rounds of its loop are enough (Roster/Folding has that as a hypothesis).
--   groups.go (readGroups): Groups.
--   go-authn/ldap's package schema, which is not part of the repository: Schema, its object classes
--     as trees of superclasses and what a built schema answers as a record of functions. What is
--     relied on is `Resolves` (a class is found by its name) and `Inherits` (MustTypes has those of
--     the superclasses).
--   declared.go: Declared is checkDeclared, Declared/Added is withDeclared, Declared/Unmet is unmet,
--     Declared/Conflicts is groupClassConflicts.
--   entries.go: Entries is what happens to an entry before it is published (validated, placed,
--     sized), Entries/Built makes the entry of a person or a group (personEntry, groupEntryFrom),
--     and Entries/Publication is build, which puts them together with unmet. A result of none there
--     is a nil pointer that the code would use.
--   siteschema.go: SiteSchema has the definitions and owners.add, SiteSchema/Refusals is refusal,
--     SiteSchema/Loading is directorySchema, which adds the schema files and then the schema blocks
--     to the standard schema, and SiteSchema/Blocks is schemaBlockFiles.
--   structure.go: Structure is checkStructure and containerClass; `placed` is in Entries.
--   server.go: Server holds the server's state (`State`), what it is set up with (`Site`) and what
--     an operation meets outside (`Env`: the clock, the sources' answers, SHA-256). Server/Names is
--     dnOf and nameOf, Server/Bind is Bind, Server/Search is Search, Server/Password is Modify,
--     Extended and what is under them (provesPassword, writeProved, reloadLocal).
--   password.go (decodePasswdModify): PasswdModify; the BER decoder is a parameter.
--   certs.go (certStore): Certs, over what each look finds in the files.
--   oidc.go (parseOAuthBearer, gs2Authzid, oauthBearerCredentials, tokenFactors): Oauth; BindSASL is
--     Server/Sasl, where the verifier of tokens is a parameter.
--   refresh.go (read, refreshTry, refreshOnce, noteRefresh): Refresh, with the password writes that
--     happen between its reads.
--   go-authn/directory, which is not part of the repository: Directory, a person as the answers of
--     the methods that are called. hcldir.SetPassword and the reading back of the files are `Files`.
--
-- How the code's state is written: a handler is a function from the state to the state and the
-- answer. s.mu and s.swapMu are the boundaries of these functions: what a handler does under the
-- lock is a function of its own (`commits`, `swap_in`), and a theorem may put any other steps
-- between. A source's answer within the bind's budget is a `Reply`: an outcome, or silence. The
-- server's own output is a list of lines, newest first, in place of the texts; a line that refresh.go
-- prints after s.mu is unlocked is what the function under the lock returns. Texts are lists of
-- numbers; letter case is a parameter, `Casing`, of which ASCII is fixed. Durations are integers of
-- nanoseconds and wrap as int64 does. Maps are association lists with one entry per key.
--
-- Not modelled: the listeners and TLS, the reading of the configuration's files, the command line
-- and its report (root.go, and the lines that leftOffLines, schemaLines and reportLeftOut make),
-- readSchemaFile, openOIDC, and the KDC, which only calls go-authn's. Fixtures holds the small
-- installation that the tests run on, and Samples a small schema with a person and a group of a
-- site's own classes.
pub mod Base
pub mod Config
pub mod Directory
pub mod Pending
pub mod Factors
pub mod Roster
pub mod Server
pub mod PasswdModify
pub mod Groups
pub mod Oauth
pub mod Entries
pub mod Certs
pub mod Startup
pub mod Structure
pub mod SiteSchema
pub mod Declared
pub mod Schema
pub mod Refresh
pub mod Fixtures
pub mod Samples
