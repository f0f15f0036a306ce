-- ===== src/EncryptedFs/Listing/ReadDir.antt =====
-- `read_dir`.
use encryptedfs.EncryptedFs.Names.{Names}
