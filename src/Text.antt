-- ===== src/Text.antt =====
-- Rust's `str` as the list of its code points, with the methods of `str` that the agent and the
-- installer call. These are the standard library's, so no line of the repository is modelled here.
mod Basic
mod Lines
pub mod Laws
pub mod Numbers
pub use carbide_os.Prelude.{is_empty}
unfoldable pub use Basic.*
unfoldable pub use Lines.*
