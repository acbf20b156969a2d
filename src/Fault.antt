-- ===== src/Fault.antt =====
-- Go's error values, and functions that act on an outside world and may fail.
-- `fmt.Errorf` and `fmt.Sprintf` are kept unrendered: the format with its arguments.
mod Errors
mod Actions
unfoldable pub use Errors.*
unfoldable pub use Actions.*
