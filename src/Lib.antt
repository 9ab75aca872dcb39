-- ===== src/Lib.antt =====
-- Anthias, the digital signage player: the parts of the server and of the viewer that decide what is
-- shown, who may change it, and how broken state is repaired.
--
-- The server keeps a table of assets and the settings; the viewer reads the table, rotates through
-- the assets that are active, and obeys commands that the server publishes over Redis; background
-- tasks check the assets and repair rows that are stuck.
--
--   Prelude     library names, text as code points, lists, Boolean tests
--   Models      src/anthias_server/app/models.py: the row `Asset`, `get_play_days`,
--               `has_window_filter`, `is_active`, `_matches_play_window`
--   Scheduling  src/anthias_viewer/scheduling.py: `generate_asset_list`, `_compute_deadline` and
--               the class `Scheduler`, on top of Models
--   Headers     src/anthias_server/app/models.py: the request headers of an asset and the clamps of
--               its duration and refresh interval
--   Auth        src/anthias_server/lib/auth.py: `apply_auth_settings`, the gate `authorized`, the
--               throttle of the warning on Basic authentication
--   Csrf        src/anthias_server/lib/csrf.py: `_split_origin` and `_origin_verified`
--   Tasks       src/anthias_server/celery_tasks.py: `reconcile_stuck_processing`,
--               `revalidate_asset_urls`, `revalidate_asset_url` and their locks, with the writes of
--               src/anthias_server/processing.py that they call
--   Channel     src/anthias_viewer/messaging.py: the class `ViewerSubscriber`
--   Audio       src/anthias_viewer/media_player.py: the audio device of a video
--   Backup      src/anthias_server/lib/backup_helper.py: `recover` and the check of its members
--   Ingest      src/anthias_server/lib/integrations/ingest.py: the download of an imported file
--   Viewer      src/anthias_viewer/__init__.py and playback.py: Output the sink of the web view's
--               output, Qpa the rotation of the screen, Watchdog the restarts of a headless Wayland
--               boot, Launch the start of the web view, Webview what is sent to it, Player the videos,
--               Loop the main thread on top of Scheduling and Headers, Loop/Control the commands
--
-- A method is a function from the object's record to its next value; a Python exception is `none`,
-- or a constructor where the code tells errors apart. A function keeps the name of the method it
-- models, without a leading underscore; a helper by clauses models a branch or a loop of it. The
-- files below a component's file hold its theorems, and its Examples the concrete runs.
--
-- What the code calls and does not implement is an argument: `Runtime` (JSON text and the local
-- time), `World` (settings, file times, rows, clock and random order), `Bus` (the replies of the web
-- view and how a launch goes, as functions of all that happened before), `Display` (the kernel's and
-- the compositor's view of the screen), `Host` (the polls of one launch), `Env` and `Reload` (what a
-- turn and a command meet, the media player among it), `Django` (hashes and rules of
-- passwords), `Urls` (`urlsplit`), `Worker` (time stamps, probes, clock, the queue of jobs), `Redis`
-- (its locks). A property of such an argument that a theorem needs is a hypothesis of it.
--
-- Instants and times of day are microseconds; lock times and waits are seconds, but the polls of a
-- launch and the waits of the main loop count milliseconds. Text is a list of code points. Every loop
-- is structural recursion over its list or its count of attempts, with two exceptions. One number
-- stands for a limit of time: the rows that `reconcile_rows` handles before the soft time limit
-- strikes, and a table of at most that many rows is handled whole, unless a `.delay()` raises; the
-- soft limit may fall between two rows or inside a `.delay()`, not elsewhere.
-- The polls of a launch run on fuel, where `clock i` is the time at the i-th poll: a poll sleeps for
-- 250 milliseconds, so that more fuel than the budget holds polls, and than the 12 polls of the 3
-- seconds after SIGTERM, is enough.
--
-- The main thread and the subscriber share the variables of `Viewer`. A run is a list of turns and
-- commands, each done whole; what another thread does inside a turn is seen only as the end of its
-- wait. A row without a URI is handed to the bus as None; what becomes of it is a parameter.
--
-- A call of the scheduler gets the files' times and the rows as values, not in the order of the reads.
-- Rows are the same if all their columns are, the order of the keys of a JSON object included, and a
-- float in a JSON value is known by its whole part. A download is known by the sizes of its chunks.
--
-- Not modelled: the start of the viewer and the environment of its web view, GStreamer's player, the
-- media conversion, the views and serializers of Django, the vendors of imports, telemetry and
-- the writing of backups. They are mostly calls of other programs and of libraries. Logging is left
-- out, except the notices of the main loop and of the watchdog that the code holds back.
pub mod Prelude
pub mod Models
pub mod Scheduling
pub mod Headers
pub mod Auth
pub mod Csrf
pub mod Tasks
pub mod Channel
pub mod Viewer
pub mod Backup
pub mod Audio
pub mod Ingest
