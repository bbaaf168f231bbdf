-- ===== src/Lib.antt =====
-- spiffile (python/src/spiffile): SPIFFE identities that are delivered as files. A workload
-- reads its SPIFFE ID, its private key and a trust bundle from files, mints short tokens
-- (JWT-SVIDs) with the key, and verifies the tokens of others against the bundle, which binds
-- each SPIFFE ID to the keys that may sign for it.
--
-- The parts, and the files that model them:
-- - SpiffeId (spiffe_id.py): parsing and printing of SPIFFE IDs; SpiffeId/Grammar is the grammar
--   of the IDs, SpiffeId/Parsing compares the two, and SpiffeId/Faults is about the errors.
-- - Errors (errors.py): exceptions as values; `raise` has a constructor for each `raise` of the
--   program, below its class, without the text of the message.
-- - Bundle (bundle.py, class Bundle): the bundle and its JSON document. Bundle/Entries follows
--   one name through the loop of `from_dict`, Bundle/Document is about whole documents,
--   Bundle/RoundTrip about well-formed bundles and `to_dict`.
-- - BundleSource (bundle.py, class FileBundleSource): the cache of a bundle file;
--   BundleSource/Fresh compares it with a read that has no cache.
-- - Keys (keys.py): base64url, JWKs, thumbprints; Keys/Base64 compares `_b64url` with a decoder,
--   Keys/Jwk is about `public_jwk`, and Keys/Bounds about the width of what it writes. KeySource
--   (identity.py, _StaticKeySource and _FileKeySource): the signing key and its cache;
--   KeySource/Cache is what the cache holds, KeySource/Fresh compares it with a read that has no
--   cache, and KeySource/Reading is its first read.
-- - Identity (identity.py, class Identity, unverified_audience): `verify`; Identity/Minting is
--   `token`, and Identity/Loading `from_files` and `from_env`, on which see Identity/Files.
--   Identity/Sound is about the caller that `verify` returns and the audience of its token, with
--   Identity/Claims for the part before the bundle and Identity/Loop for the loop over the keys.
--   Identity/Refusals is about what `verify` raises and Identity/Forged about tokens that no
--   bound key has signed, with Identity/Choice for the choice of the candidates.
--   Identity/RoundTrip is about `token` followed by `verify`, and Identity/Static about
--   identities that are given their key.
-- - Provision (provision.py): `service_env` and `load_identity`, with Provision/Env about the
--   variables; Provision/Operations is `init_root`, `add_service`, `rotate_service` and
--   `remove_service`, and Provision/Retained the old keys that a rotation keeps.
--   Provision/Places says where the files of a service lie, Provision/Stored what is read of a
--   bundle file that was written, Provision/Writes how single files change, and Provision/Layout
--   what a root has. Provision/Init, Add, Again, Rotate and Remove follow one operation each,
--   Provision/Complete is what the last of them needs, Provision/Vacancy says that a call for one
--   service leaves room for another, and Provision/Room and
--   Provision/Renewal are about a service that was removed;
--   Provision/Loaded is about the identity of a
--   service, and Provision/Use and Provision/Revocation about its tokens, from the files to
--   `verify`. Provision/Runs is about runs of calls, as a step relation on disks;
--   Provision/Registry is the abstract state that they refine, the keys of each ID, and
--   Provision/Lifetime says what a run leaves as it was. Provision/Origin is about the keys that
--   `verify` trusts behind a run.
-- - Conformance (conformance/generate.py): the fixtures that the implementations are tested
--   with; Conformance/Fixtures and Conformance/Members are about what is derived, and
--   Conformance/Tokens about the two tokens under `verify`; Conformance/CommandLine is
--   conformance/matrix/cli.py, and Conformance/Checked is about its command `verify`,
--   Conformance/Services and Conformance/Provisioned about `provision`, and Conformance/Matrix
--   about the three commands one after the other.
-- - Ports: the packages in Go (go/) and TypeScript (ts/src/), as far as they parse SPIFFE IDs
--   and bundles. Ports/Go is ParseSpiffeID (go/spiffeid.go), Ports/Ts is SpiffeId.parse
--   (ts/src/spiffeId.ts), Ports/Ts/Document is Bundle.fromDocument (ts/src/bundle.ts). Ports/Ids
--   and Ports/Bundles compare them with the Python code; Ports/Units is UTF-16. A Go string is
--   the list of its runes, a string of JavaScript that of its code units.
--
-- Values that come from JSON are `Value` (Prelude/Value); a float is the 64 bits of the double.
-- A Python str is the list of its code points (Prelude/Strings), a dict an association list in
-- insertion order (Prelude/Dict), an int of Python a ℤ (Prelude/Int). A method returns its
-- result and the new state of its object; `verify` and `token` take the disk at the moment of
-- `os.stat` and at the moment of the read, so that a file may be replaced in between, and the
-- time of the clock. No definition needs fuel: every loop goes through a list.
--
-- Disk models pathlib and the file system as a tree of folders and files without symbolic links;
-- Disk/Paths is about paths and their texts. Disk/Action has the calls that change the disk,
-- which return their result and the disk behind it, also when they raise; Disk/Locate,
-- Disk/Effects, Disk/Above, Disk/Folders and Disk/Erase say what those do, for paths without
-- "..". Files that one call writes bear one time of change, folders keep theirs, and no other
-- process writes during such a call. Codec (text files and the json module) and Crypto (the
-- packages cryptography and jwt, and hashlib) are interfaces; the records of laws beside them
-- say what is assumed of those, and Examples/Toy is an implementation of Crypto that meets the
-- assumptions.
--
-- Not modelled: the rest of the packages in Go and TypeScript; the text of error messages and
-- log lines; the newlines that `read_text` translates, which no result shows; times and
-- leeways that are no whole seconds; how a key is generated, so that the new key is an
-- argument of the calls that make one.
pub mod Prelude
pub mod Errors
pub mod SpiffeId
pub mod Bundle
pub mod Disk
pub mod Codec
pub mod BundleSource
pub mod Crypto
pub mod Keys
pub mod KeySource
pub mod Identity
pub mod Ports
mod Examples
pub mod Provision
pub mod Conformance
