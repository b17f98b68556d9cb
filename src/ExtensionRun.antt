-- ===== src/ExtensionRun.antt =====
-- extensionrun: the configuration of an extension, its run on the server and the archive of the result.
pub mod Archive
pub mod Config
pub mod JwtRequirements
pub mod Poll
