-- ===== src/Viewer.antt =====
-- src/anthias_viewer/__init__.py: the viewer's main loop, the web view that it drives, and the
-- watchdog that restarts it.
pub mod Examples
pub mod Launch
pub mod Loop
pub mod Output
pub mod Player
pub mod Qpa
pub mod Watchdog
pub mod Webview
