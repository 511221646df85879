-- ===== src/Lib.antt =====
-- SuperBoss: the server's identity, file and import services, and the connector that submits.
--
-- The program is a FastAPI server over PostgreSQL, with object storage, a virus scanner and a
-- connector that runs on the owner's computer. This library models the services of the server,
-- one module for each, and the theorems that make each correct.
--
-- Base: names and lemmas that all share; a table of the database is the list of its rows
--   (Base/Rows: a query, an insert, the write of a row, UPDATE … WHERE).
-- Core: server/src/superboss/core. Errors (errors.py), Exec (methods that read and write a unit
--   of work and may raise; `transaction` rolls back), Platform (PyJWT, SHA-256, UUID and Argon2
--   as parameters, with their documented laws), Actors (actors.py; Actors/Access says who may
--   access a project), Security (security.py) and Directory (the rows of users, sessions,
--   projects, members and audit events).
-- Auth: modules/auth. Passwords (passwords.py), Service (service.py, method by method: `login`,
--   `issue_session`, `change_password`, `rotate_refresh_token`, `authenticate_access_token`,
--   `logout`), Routes (router.py: what each request commits). A method is split where it flushes:
--   `login_unlocked` is `login` from the password check on, `complete_login` its success.
-- Files: modules/files. Names (the path segments, signatures and keys of service.py), Vault (the
--   rows, the unit of work and the storage's calls), Scan (FileScanService.scan_file: `claim`,
--   `scan_outcome`, `record_outcome`; Scan/Verdict runs it among the services that write the same
--   rows), Upload and Complete (FileService: `begin_upload` is
--   `_start_upload`, `provision_upload`, `complete_upload`, `presign_part`, `presign_download`),
--   Stale (StaleUploadService). Object storage and the scanner appear by their answers, a
--   presigning call by a function that may be missing or give nothing, and what other transactions
--   commit between two of a method's own is an argument, `meanwhile`.
-- Imports: modules/imports. Jobs (models.py), Evaluation (`_evaluate_files`,
--   `_apply_transition`), Service (`submit`, `reconcile_file`), Reading (`read`,
--   `_resolve_attachment_upload`), Create (`create`, `_persist_job`), Uploads (`presign_part`,
--   `complete_attachment`, the views, `list_owner`). They share the rows of Files and the actors of Core.
-- Imports/Schemas: imports/schemas.py, the normalized request of an import.
-- Files/ClamAv: server/src/superboss/infrastructure/clamav.py, the frames and the reply.
-- Audit: modules/audit/service.py (`write_audit`); Audit/Events says when two rows tell one event.
-- Devices: modules/devices. Tables (models.py), Tokens (the device tokens of core/security.py),
--   Service (what the methods share, and `revoke`), Pairing (`pair`) and Access (`refresh`, and
--   `authenticate_device_token`, which is `authenticate_access_token`).
-- Users: modules/users/service.py (OwnerUserService), and Projects: modules/projects/service.py
--   (ProjectService), both on the rows of Core/Directory.
-- Connector: integrations/kimi-superboss/connector. Checks (the checks that its files repeat),
--   Updater (updater.py, replace_executable; each call succeeds or not by an argument),
--   Manifest (manifest.py: validation; Manifest/Prepare has `prepare_manifest`), Outbox (the document of
--   outbox.py and its validation), Store (OutboxStore: a directory of documents and two markers),
--   Client (client.py: what an answer may be; Client/Calls has the calls), Cli (cli.py: `_resume`;
--   Cli/Commands has `pair`, `submit`, `retry` and `status`, Cli/Unchanged the check of a
--   prepared manifest against the stored one). The server, the storage, the files and
--   the clock answer by the step that asks, so that one theorem covers every run; the calls that
--   were made are logged in the state. Agreement sets its client against the server's view.
-- Tests: a concrete platform, and the theorems with hypotheses at concrete inputs.
--
-- Identifiers, digests and times are natural numbers; a time counts microseconds. A text that
-- the code inspects is the list of its code points. Loops are recursions over lists. Where a
-- list is cut into pieces, its length is the fuel, and the pieces are shown to be all of it. What a
-- method draws (clock, `uuid4()`, random tokens, salts) is an argument.
--
-- Not modelled: pairing codes when they are created, the routes, the connector's updater but the
-- replacement of the executable, its options and the check of its origin, HTTP parsing, cookies
-- and CSRF, SQL and isolation levels (one unit of work runs at a time, except where a method uses
-- several transactions), the browser client, deployment.
pub mod Base
pub mod Core
pub mod Auth
pub mod Files
pub mod Imports
pub mod Audit
pub mod Devices
pub mod Users
pub mod Projects
pub mod Connector
pub mod Tests
