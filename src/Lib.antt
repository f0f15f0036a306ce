-- ===== src/Lib.antt =====
-- encryptedfs: an encrypted file system. Files are kept encrypted in a directory of the host and are
-- served decrypted. This library models the layers that turn data into encrypted blocks and back, the
-- directories and inodes over them, and the permission checks of the FUSE layer.
--
-- The parts and how they meet. A file's content is a stream of blocks: a nonce, the ciphertext, the
-- tag, each sealed with its index. `RingCryptoWrite` (src/crypto/write.rs) collects the bytes that it
-- is given in a buffer (src/crypto/buf_mut.rs) and seals a block when the buffer is full or the
-- stream is finished; `RingCryptoWriteSeek` first loads the block that it is to change.
-- `RingCryptoRead` (src/crypto/read.rs) fills a buffer with one block through the macro
-- `decrypt_block!`, opens it in place and gives out the plaintext. The loops of src/stream_util.rs
-- skip, copy and fill over any reader and writer, and `copy_from_file` (src/crypto.rs) copies a range
-- of an encrypted file with them.
--
-- `EncryptedFs` (src/encryptedfs.rs) keeps an inode file and a file or folder of contents for each
-- node, and in the folder of a directory each entry twice: under its encrypted name, for the listing,
-- and under the hash of its name, for the search. Caches of attributes, names and entries stand before
-- them, each an `ExpireValue` (src/expire_value.rs), and so does the key. The FUSE layer
-- (src/mount/linux.rs) checks what a caller may do, and then calls `EncryptedFs`.
--
-- Files of the model:
--   Prelude: shared names, Boolean tests, lists over native numbers, `Result` and `Exec`.
--   Io: std::io, with files of bytes and the contracts of `Read` and `Write`.
--   BufMut: src/crypto/buf_mut.rs. One function per method, a byte is a number.
--   Stream: src/stream_util.rs, over parameters `read` and `write_all`.
--   Crypto: `Env`, what the code takes from the `ring` crate and the random numbers; Crypto/Format,
--     the stream of blocks apart from the code; Crypto/Write with Crypto/Write/Seek, Crypto/Decrypt,
--     Crypto/Read with Crypto/Read/Seek, and Crypto/Copy, the code; Crypto/RoundTrip, writer and
--     reader together.
--     Crypto/Text, texts and file names on UTF-8 bytes, with base64 and the hash as parameters.
--     Crypto/Serialize, what is serialized through the encrypting writer.
--   ArcHashMap: src/arc_hashmap.rs, the map of reference-counted locks that src/encryptedfs.rs uses.
--   ExpireValue: src/expire_value.rs, a value that is kept for some time.
--   EncryptedFs: src/encryptedfs.rs. EncryptedFs/Attr, the attribute records and `merge_attr`;
--     EncryptedFs/Inodes, disk and cache, `get_attr` and `set_attr2`; EncryptedFs/Names, what the
--     directories take from src/crypto.rs; EncryptedFs/Tree, the state and what the host's folders
--     hold; EncryptedFs/Entries, an entry of a directory in its two folders; EncryptedFs/Nodes,
--     `create`, `remove_file` and `remove_dir`; EncryptedFs/Rename; EncryptedFs/Listing, `read_dir`;
--     EncryptedFs/Root, the root directory; EncryptedFs/Handles, `open`; EncryptedFs/Files, what is
--     done with open files, over streams that are a record of operations, and `set_len`;
--     EncryptedFs/Keys, the data directory and the password; EncryptedFs/Valid, the validity of the
--     state and its changes.
--   Mount: src/mount/linux.rs. Mount itself, `check_access` and the modes; Mount/Handlers, the calls of
--     FUSE, on the operations of EncryptedFs.
--   Tests: the theorems on concrete inputs, with a small AEAD.
--
-- State and errors. A method that changes an object is an `Exec` action: from the state to a result
-- and the state after it, also after an error. `panicked` stands for a panic, and `diverged` for a
-- loop that has used up its fuel, which the theorems exclude. `usize` and `u64` are numbers with the
-- wrap-around written out where a sum can reach it, and `i64` casts are written out. The loops run
-- on fuel of the bytes asked for plus one, which is enough as each round but the last moves a byte.
--
-- Parameters. The AEAD, its nonce and tag lengths, the random bytes of a nonce and the block size
-- are the record `Env`; `IsEnv` says what `ring` documents: sealing keeps the length, adds a tag of
-- fixed length, and opening undoes it. The buffer size of the stream loops is any positive number.
-- A file has a quota of storage and may return short reads.
--
-- The file system has the folders of the host as maps: a file that is serialized and encrypted into a
-- folder stands for what it was made from. `Names` is the hashing and encryption of names, which
-- `crypto_names` takes from Crypto/Text; `Vault` has the derivation of a key from a password, and
-- `Bincode` what is written for a value and how it is read from a stream, where it is read back from
-- what was written through any reader that keeps the contract of `Read`. The locks and the tasks of
-- src/encryptedfs.rs are left out: an operation is one step. The numbers that the
-- generator of inodes draws are an argument, and `diverged` stands for a draw that never ends.
--
-- Not modelled: the calls of FUSE that open, read, write and list, and those that set a size or a
-- time; the choice of a cipher and the derivation of a key, which are calls of `ring` and `argon2`; and
-- the command line, which is input and output only.
pub mod Prelude
pub mod Io
pub mod BufMut
pub mod Stream
pub mod Crypto
pub mod ArcHashMap
pub mod ExpireValue
pub mod EncryptedFs
pub mod Mount
mod Tests
