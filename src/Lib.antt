-- ===== src/Lib.antt =====
-- LB Note, a meeting-note server: it records audio, transcribes it in chunks, and keeps the
-- meetings, their backups and notices in one SQLite database.
--
-- The files and the code that they model (paths from the root of the repository):
--
-- Web/Store: `MeetingStore` of src/web/store.py. Json and Etag are the stored documents and the
-- ETag (`_next_etag`), Tables the two SQL tables with their statements (an id that is no text is
-- stored as SQLite converts it), Meetings one function per
-- method with the method's name (`get` is `fetch`, `update` is `merge`). A method is an action:
-- from the tables to a result and the tables that the committed or failed call leaves. The lock of
-- the store makes each method one step, so concurrent requests are sequences of calls (Trace).
-- The other files prove: Valid and Keeps the invariant, Original what never goes away, Revert and
-- Undo the round trips, Locking the optimistic lock, Removal the deletions.
-- Web/Notices: `NoticeStore` of the same file.
-- Stt/Chunker: src/chunker.py. Fixed is `chunk_audio`, with the arithmetic on seconds as an argument;
-- elsewhere times are counted in samples, so that the code's divisions by the sample rate are exact:
-- Vad is `vad_segment_chunks`, Subdivide is `subdivide_chunk`, Merge the joining of the chunks' texts (`merge_vad_segments`,
-- `merge_segments`), on code points.
-- Web/Auth: src/web/auth.py. The tables of `UserStore` are dicts by their keys: Users, Admin and Start
-- are the accounts, Credentials, Config and Migration the tables with secrets, Secrets the encryption,
-- Tokens the signed tokens, Glossary and Events the two other tables; a method has its name (`get` is
-- `find`). passlib, Fernet and PyJWT are records with their functions and laws (Fakes has instances).
-- Web/App: the gates and the account handlers of src/web/app.py. Reply is a value or the status of an
-- `HTTPException`, Accounts the handlers, which take the tables as they are at each lock, Requests
-- serves a list of them, one after another; Keeps, Guards, Admins and LastAdmin are the proofs.
-- Web/Jobs: the jobs of src/web/app.py. Registry holds the tables that a lock protects and the functions on
-- them, Views what a user polls, Worker the thread of a job (`_run_ai_job`) cut into stages, and a
-- step relation by actions: the stages of all threads interleave with submissions, cancellations,
-- the watchdog and the purges. Slots, Cancel, Ends and Purge are the proofs.
-- Web/Meetings: the handlers of meetings of src/web/app.py over the store of Web/Store. Handlers are the
-- functions, Others what a write of the store leaves alone, Isolation serves the requests of many users.
-- Web/Contract: src/postprocess/web_contract.py. Transcript is the edit of a transcript, Edits what it may
-- change, Ids the ids of action items.
-- Web/Requirements: `RequirementStore` of src/web/store.py. Web/GpuStatus: src/web/gpu_status.py.
-- Stt/Repetition: `collapse_repetitions` of src/repetition.py, on tokens.
-- Signals: the context variables of src/cancellation.py and src/progress.py.
-- Stt/Scoring: `levenshtein`, `wer` and `cer` of src/scoring.py, on lists of tokens or code points;
-- Rows is the table, Scripts the edit scripts that it is measured against.
-- Postprocess: the gate on cleaned segments, validate.py and homophone.py of src/postprocess, on code
-- points and exact quotients; Tokens reads texts, Content and Repair prove what the gate lets through. Language is
-- language_gate.py, with times in milliseconds, and Partition what it keeps.
-- Slack: the bot of src/slack_bot. Conversation is conversation.py (`get` is `active`), Requirements
-- and Commands are the handlers of handlers.py, Bot the routing of bot.py. What Slack and the server
-- answer is the record `World` or an argument; the calls that a handler makes are listed in its result.
--
-- The clock, the reading and printing of an ISO time (`IsoText`) and the caller's validator are
-- arguments. Times in the store are counted in microseconds. A JSON document is a list of keys and
-- values that keeps the order of a Python dict. Loops that the code runs `while` are on fuel: the
-- length of the audio for the fixed chunks and of a region for the split of a region, which the
-- theorems show to be enough, since each round moves on by a sample at least; in Repetition and
-- Subdivide the length of the input.
--
-- Not modelled: the models that transcribe and clean the audio, the other HTTP routes and the
-- services that they call (Google, Jira, Slack), file and network input and output, and the
-- deployment scripts. They are listed with the reason in the manifest.
pub mod Base
pub mod Stt
pub mod Signals
pub mod Postprocess
pub mod Slack
pub mod Web
