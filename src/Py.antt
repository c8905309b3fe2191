-- ===== src/Py.antt =====
-- Values of Python as `json.loads` builds them, and the dict and list operations that the code
-- applies to them.
mod Numbers
mod Values
mod Strings
mod Decimal
mod Reads
mod Dumps
mod Laws
unfoldable pub use Numbers.*
unfoldable pub use Values.*
unfoldable pub use Strings.*
unfoldable pub use Decimal.*
unfoldable pub use Reads.*
unfoldable pub use Dumps.*
pub use Laws.*
