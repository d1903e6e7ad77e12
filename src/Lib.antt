-- ===== src/Lib.antt =====
-- odoo-mcp gives MCP clients tools on an Odoo server. A write goes through the coordinator of
-- src/odoo_mcp/policy/write_safety.py, which checks permission, company, capability and key, previews a
-- dry run, reserves the idempotency key, calls the workflow's callbacks (prepare, validate current
-- state, execute) and stores the outcome. The coordinator keeps no state of its own: the storage does,
-- in SQL tables, an idempotency table and an audit log that is a chain of hashes for each tenant.
--
-- The modules:
--   Prelude    Boolean tests, lists, integers and text over the native numbers.
--   Json       the values and mappings that the program stores and sends (Json.Values), redaction and
--              field stripping (Json.Redact: redact_sensitive of src/odoo_mcp/storage/json_support.py,
--              strip_denied_fields of src/odoo_mcp/adapters/odoo/policy.py).
--   Errors     the error codes and the exception of src/odoo_mcp/mcp/error_codes.py.
--   Storage    src/odoo_mcp/storage. Models has the records and table rows, Database the tables and the
--              transaction, Platform what Python's library computes, Event and Audit audit.py,
--              Idempotency the IdempotencyRepository of repositories.py, Execution execution.py,
--              Put a table after a change of one row, Proposals and Artifacts the repositories of these in repositories.py, ProposalJournal
--              proposals.py, ReportJournal reporting.py.
--   Policy     src/odoo_mcp/policy/write_safety.py. In Policy.WriteSafety, Types has the commands and
--              results, Gate the checks, Response and Persistence what is answered and stored, Event the
--              audit event, Steps the helpers that touch the storage, and Run the phases of run.
--   Workflows  src/odoo_mcp/workflows/accounting. Values and Adapter have the records and calls of
--              src/odoo_mcp/adapters/accounting.py and base.py, Paging the loop over the pages of one
--              kind of record, Cursors the cursors of the reports, Cashbook cashbook.py, Reconcile
--              reconcile_bank.py: its sources, Scoring the scores, Buckets the dicts of candidates,
--              Decisions and Conflicts `_decisions`, Proposal and Unmatched the two reports.
--   Adapters   src/odoo_mcp/adapters/odoo/outbound_policy.py: Outbound has the addresses that a connection
--              may try and the bound on a response.
--   App        src/odoo_mcp/app/shared_auth.py: Tokens has the tables and `_token_row`, Tokens.Exchange the
--              issue, the exchanges of codes and refresh tokens, and the revocation of a connector.
--   Tests      sample inputs, and the theorems at them.
-- The other modules hold proofs about the module that they stand under.
--
-- How the code is modelled. The database is a record of its tables (Db). A statement inside a
-- transaction is an action, which takes the tables and returns a value or an error and the tables;
-- transaction keeps what the action wrote if it returned, and the tables as they were if it raised. A
-- Fault says what the database does at the end of it: it commits, it fails and rolls back, or it
-- commits and the caller sees an error, since the confirmation was lost. Each storage call of a run
-- has a fault and a time of its own (StorageCall), so a property of all requests holds for every
-- failure of the storage. A row is looked up by a search of its table in order; the unique indexes of
-- migrations.py are checked at an insert where the code can meet them.
--
-- The callbacks are parameters: each takes the tables, since other tasks may write them while it is
-- awaited, and returns, is cancelled or raises. A run is a Step: how it ends, the tables after it, and
-- the callbacks that were made, in order. Run has one function for each phase of run.
--
-- A report of Workflows is a Reply: its answer, the structured error that it raises, or that something
-- else was raised, as a KeyError. The adapter is a parameter that may answer each call as it likes, so
-- what holds of a report holds of every server. The loops over pages run on fuel, one for each page:
-- such a function is none only if the fuel is spent, and 100,002 pages are enough where each page
-- brings a new record. A dict is a list of entries or of the records that hold their own keys.
--
-- A Python int is an integer over the native numbers, or a natural number where it is an id or a
-- count, a mapping a list of entries in insertion order, a datetime its microseconds since the
-- epoch, so the 24 hours of a key are 86400000000 (in App its seconds), and a date its ordinal.
-- Python's integers do not overflow. A Decimal is a value of a parameter (Decimal) with the
-- operations that the workflows use; rounding an amount raises where the parameter says that
-- quantize does. No other operation on a Decimal is taken to raise; pydantic keeps the rounding that
-- is divided by positive. A page request raises if its cursor has more than 128 characters. An
-- INSERT of tokens fails where the trigger oauth_token_scope_invariant aborts it. Outside Workflows
-- no definition runs on fuel.
--
-- Parameters for code that is not the program's: case folding, the canonical JSON text, SHA-256 and
-- the text of a time (Platform), decimal arithmetic (Decimal), base64 and the texts of numbers in
-- cursors (CursorText), the calendar and the normal form of a reference (Library), ipaddress, urlsplit
-- and the resolver (Network), and pydantic's model_dump and model_validate (Pydantic). Nothing is
-- assumed of them except where a theorem has it as a hypothesis.
--
-- Not modelled: HTTP and the Odoo server, the other adapters, the workflows behind the callbacks and
-- the reports other than the cashbook and the bank reconciliation, the Markdown texts of responses,
-- the capability cache, the connection repositories, migrations, backup, settings, the authorization
-- sessions before their code, and the registration of tools. Log lines are left out. The JSON text of
-- a stored row is taken to be read back as it was written.
pub mod Prelude
pub mod Json
pub mod Errors
pub mod Storage
pub mod Policy
pub mod Workflows
pub mod Adapters
pub mod App
pub mod Tests
