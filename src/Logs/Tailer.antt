-- ===== src/Logs/Tailer.antt =====
-- mongo-sync-agent/src/mongo_sync_agent/logs/tailer.py: bounded, line-aligned reads of a log file.
-- A file is what opening and reading it gives, and a `str` is the list of its code points. The
-- codecs are the parameter `decode`, which may raise (`LookupError` of an unknown encoding).
pub mod Encoding
pub mod Rfind
pub mod Lines
pub mod Read
pub mod Window
pub mod Drain
pub mod Streaming
pub mod Ending
pub use Encoding.{Bytes, Text, codes}
unfoldable pub use Encoding.{normalise, newline_pattern, is_two_byte}
unfoldable pub use Rfind.{matches_at, last_newline}
unfoldable pub use Lines.{replace_crlf, split_lf, rstrip_cr, to_lines}
pub use Read.{FileRead, missing, unreadable, unseekable, contents, TailChunk}
unfoldable pub use Read.{first_byte, read_window, scan, tail_file, drain_loop, drain_file}
