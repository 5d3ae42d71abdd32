-- ===== src/Table.antt =====
-- Go maps as association lists: the definitions, their laws, the eviction scan, and the
-- distinctness of keys. The components that keep a bounded table share them.
mod Defs
mod Laws
mod Eviction
mod Distinct
unfoldable pub use Defs.{Table, lookup, erase, insert, retain, oldest, evict_oldest, IsMap}
pub use Laws.*
pub use Eviction.*
pub use Distinct.*
