-- ===== src/Lib.antt =====
-- A model of OpenPubkey (https://github.com/bastionzero/openpubkey, Go) with its correctness theorems.
--
-- A PK Token binds a public key to an OpenID Connect ID Token. The packages that are modelled:
--
-- - util/base64.go: base64 for JWTs, in Util/Base64. `base64_encode` and `base64_decode` are
--   `Base64EncodeForJWT` and `Base64DecodeForJWT`, with the strict raw URL coding of the standard
--   library written out.
-- - oidc/: tokens in compact form (Oidc/Compact, `SplitCompact`), their claims (Oidc/Claims,
--   `ParseJWTSegment`, `UnmarshalJSON`, `GetTyp`), `NewJwt`, `SameIdentity` and `RequireOlder`
--   (Oidc/Jwt), and the JSON form of a JWS (Oidc/Jws, `AddSignature`, `GetToken`, `GetTokenByTyp`).
-- - pktoken/: a PK Token as one text, in PkToken/Compact (`CompactPKToken`, `SplitCompactPKToken`);
--   the PK Token and its signatures, in PkToken/Token (`New`, `AddSignature`, `NewFromCompact`,
--   `Compact`); the claims of the client, in PkToken/ClientInstance (`NewClaims`, `ParseClaims`,
--   `Hash`, `Sign` of pktoken/clientinstance/claims.go), and of a cosigner, in
--   PkToken/CosignerClaims (`ParseCosignerClaims`); the JSON form, the copy and the hash, in
--   PkToken/Serial (`MarshalJSON`, `UnmarshalJSON`, `DeepCopy`, `Hash`); signed messages, in
--   PkToken/SignedMessage (osm.go, `NewSignedMessage`, `VerifySignedMessage`).
-- - discover/discover.go: the keys of an issuer, in Discover (`ByKeyID`, `ByToken`, `ByJKT`,
--   `NewPublicKeyRecord`).
-- - providers/: Providers/Expiration has expiration.go (`CheckExpiration`), Providers/Verifier has
--   providerverifier.go (`VerifyIDToken` with `verifyCommitment`, `verifyGQSig`, `verifyAudience`).
--   Providers/GqToken has gq.go (`CreateGQToken`, `CreateGQBoundToken`), Providers/Gitlab gitlab_ci.go,
--   Providers/Github github_actions.go, and Providers/Standard standard_provider.go, whose StandardOp
--   fills the interface that a client of Client/Opk calls.
-- - verifier/verifier.go: the verification of a PK Token, in Verifier (`New` and its options,
--   `VerifyPKToken`, `GQOnly`). It calls a provider's verifier and a cosigner's through records of
--   functions, as the code calls interfaces; `verify_id_token` and `verify_cosigner` fill them.
-- - cosigner/: Cosigner/Verifier has cosignerverifier.go (`VerifyCosigner`), Cosigner/AuthIdIssuer
--   authidissuer.go, Cosigner/Store authstate.go and the store of cosigner/mocks/authstatestore.go,
--   with its runs as a relation between stores, and Cosigner/AuthCosigner the handlers of
--   authcosigner.go and cosigner.go (`InitAuth`, `RedeemAuthcode`, `IssueSignature`, `Cosign`).
-- - gq/: GQ signatures, which prove that an issuer signed a token without showing its signature.
--   Gq has the parameters and keys (gq.go, `NewSignerVerifier`, `parsePublicKey`), Gq/Inverse
--   `ModInverse` of math/big, Gq/Blinding `modInverse` of sign.go with its random factor, Gq/Padding
--   the encoding of rsa.go (`encodePKCS1v15`), Gq/Sign and Gq/Verify `Sign` and `Verify` with the
--   conversions of bigutil.go, Gq/Jwt the layer of JWTs (`SignJWT`, `VerifyJWT`, `GQ256SignJWT`,
--   `GQ256VerifyJWT`, `OriginalJWTHeaders`). The numbers of math/big and their bytes are in
--   Base/Bytes/BigEndian.
-- - client/: Client/Cos has what a client checks of its cosigner's signature (`ValidateCos` of
--   cos.go), Client/Request the conversation with the cosigner (`RequestToken`, `CreateInitAuthSig`
--   of cos.go), Client/Opk the client (client.go, `New`, `Auth`, `Refresh` and their options).
-- - opkssh/policy/ and opkssh/commands/add.go: who may log in as which principal. Policy/Entries has
--   the entries and `AddAllowedPrincipal`, Policy/Loader the reading of policy files
--   (`LoadPolicyAtPath`, `LoadUserPolicy`, `MultiFileLoader.Load`, `Dump`), Policy/Enforcer
--   `CheckPolicy`, Policy/Add the command that extends a policy file.
-- - opkssh/sshcert/ and opkssh/commands/verify.go: an SSH certificate that carries a PK Token, in
--   Opkssh/SshCert (`New`, `NewFromAuthorizedKey`, `VerifySshPktCert`), and the command that SSH asks
--   which keys may log in, in Opkssh/Verify (`AuthorizedKeysCommand`, with the policy of
--   opkssh/policy/ behind its check). Opkssh/Keys has the key files that a login writes
--   (`writeKeysToSSHDir` of opkssh/commands/login.go), on a disk of files with contents and modes,
--   where the umask is a parameter and a write that fails leaves its file.
--
-- How the code is read. `[]byte` and `string` are lists of numbers; a slice or a pointer that the
-- code compares with nil is an `Option`. A function with an `error` result gives a `Result`: a value,
-- an error (its format string, with the error that it wraps) or a panic. A method that changes its
-- receiver returns the new one. Loops over a slice are recursions on the list. Log output is left out.
--
-- Fuel. `big.Int.ModInverse` is Euclid's loop with the modulus as its fuel: the remainder falls in each
-- round. The length in bits of x has fuel x + 1, which halving cannot use up. `modInverse` of gq/sign.go
-- draws random numbers until one is invertible: here it is a recursion on the list of numbers that
-- `rand.Reader` gives, with no bound of its own.
--
-- Time is in seconds with the wrap-around of `int64` written out (Base/Int).
--
-- What is not under the repository is a parameter: `encoding/json` (`Json`, which gives what
-- `json.Unmarshal` stores in each struct), the packages jws and jwk (`Jwx`, with messages, headers and
-- keys as records of what is read of them), SHA3, HMAC, random bytes and `jws.Sign` (`Crypto`), the
-- clock, the fetch of keys over HTTP (`PublicKeyFinder`), the file system, the user database and YAML
-- (`FileSystem`, `Host`). What a theorem needs of them is a record of named hypotheses (`IsParser`,
-- `IsFileSystem`, `IsYaml`), and the tests have a value of each at which they hold. The verification of
-- a GQ signature is a field of the environment of Providers/Verifier, and Gq/Jwt has the function that
-- the code calls there. The modular arithmetic of bigmod, SHAKE256 and SHA-256 are parameters of Gq
-- (`Bigmod`, `Primitives`); HTTP, URLs and the browser are parameters of Client/Request (`World`), of
-- Providers/Github (`Service`) and, with the package rp, of Providers/Standard (`RelyingParty`).
--
-- Not modelled: the login in a browser (`requestTokens` of providers/standard_provider.go with its HTTP
-- server, providers/utils.go), which is a field of `RelyingParty`, the web page that chooses a provider,
-- certificates (cert/), the flow of opkssh/commands/login.go around its key files, opkssh/main.go. The examples are input and output.
pub mod Base
pub mod Oidc
pub mod Opkssh
pub mod PkToken
pub mod Discover
pub mod Gq
pub mod Providers
pub mod Verifier
pub mod Cosigner
pub mod Client
pub mod Util
pub mod Policy
