-- ===== src/Lib.antt =====
-- Sovereign Jedi: a browser vault that a Solana wallet opens. The wallet signs two messages, the keys
-- derive from the signatures, and an encrypted manifest of the user's files lives on IPFS with a
-- local pointer to its newest version.
--
-- Parts and their files:
--   Prelude   Boolean tests, lists, JavaScript strings, exceptions, methods of an object.
--   Json      values of JSON.parse and their properties.
--   Platform  what the program calls and does not implement: hashes, AEAD, base64, JSON, dates,
--             `canonicalize`. `Lawful` holds what the program relies on.
--   Crypto    packages/crypto/src/index.ts and v0_local_encryption/localEncryption.ts: hkdfExtract,
--             hkdfExpand, deriveKeyHKDF (Hkdf), deriveKekFromSignature (Kek), buildUnlockMessageV1
--             and its expiry (Unlock), buildVaultRootMessageV1 (VaultRoot),
--             encryptFile and decryptFile (Files), toHex and fromHex (Hex).
--   Session   apps/web/src/lib/session/SessionManager.ts: loadVerified and saveVerified (Verified), the
--             class with connectWallet, lockVault, disconnectWallet, getVerified (Manager),
--             toUint8Array and the request for a signature (Signing), unlockVault cut at its waits
--             (Unlocking), runs of calls (History) and of the event loop (Interleaving), useSession.ts
--             (Hook).
--   Manifest  packages/manifest/src: crypto.ts (Cipher), service.ts (Wrap, Service, Service.Entry,
--             Service.Append), storage.ts (Pointer), internal/mutex.ts (Mutex, and the ticket lock that it
--             refines in Mutex.Lock).
--   Identity  apps/web/src/components/wallet: types.ts (Identity, Store, Expiry), utils.ts
--             (Signature), doVerify of VerifyWallet.tsx (Verify).
--   Ipfs      packages/ipfs/src/client.ts: configuration (Config), the Kubo back end (Kubo), the
--             Helia back end with its singleton (Context), addBytes, catBytes and
--             addEncryptedPackage (Client).
--   Guards    apps/web/src/lib/session/vaultGuards.ts.
--   Upload    apps/web/src/lib/ipfs/uploadEncryptedToIpfs.ts.
--   Registry  apps/web/src/lib: utils/RetryUtils.ts (Retry), solana/solanaConfig.ts (Config),
--             selectHead of solana/RegistryService.ts (Head), packages/solana-registry/src/index.ts
--             with getRegistry and publishManifest of RegistryService.ts (Client), its
--             getManifestFromIpfs (Content).
--   Store     packages/storage/src/index.ts.
--   Page      apps/web/pages/index.tsx: refreshFromManifest (Refresh), handleFile (Upload), drag
--             and drop and the filters (Drag); RegistryPublishWidget.tsx (Widget).
--   Checks    sample surroundings and runs.
--
-- The session calls Crypto for its messages and keys. The manifest service takes the vault-root
-- signature, derives the key encryption key with Crypto, encrypts with Cipher, wraps the manifest
-- key with Wrap, stores on IPFS and moves the Pointer. A method returns its outcome with the state,
-- so that what was written before an exception stays written.
--
-- Bytes and JavaScript strings are lists of numbers; times are milliseconds. Random bytes, clocks
-- and the wallet's answers are arguments. There is no fuel: the loops are structural.
--
-- Other packages (Web Crypto, libsodium, bs58, tweetnacl, Anchor, Helia, Kubo over HTTP, Dexie) are
-- records of functions; what the program relies on is in `Lawful`, `LawfulHost` and
-- `Base58Lawful`. The page calls Upload, the manifest service and Registry.Head; Upload calls Guards,
-- Crypto.Files and Ipfs.Client. The manifest service and the upload reach IPFS through states of
-- their own. The mutex runs the body of an append alone; a load runs without it.
--
-- Not modelled: debug output, DOM events beyond a count, dependencies injected for tests, rendering
-- and styles, the widgets that only show state, and the Rust program on the chain.
pub mod Prelude
pub mod Json
pub mod Identity
pub mod Ipfs
pub mod Guards
pub mod Upload
pub mod Platform
pub mod Crypto
pub mod Session
pub mod Manifest
pub mod Registry
pub mod Store
pub mod Page
pub mod Checks
