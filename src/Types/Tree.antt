-- ===== src/Types/Tree.antt =====
-- The node tree of types.h: heap indices, depth, ancestry and the path from the root.
mod Depth
mod Ancestry
mod Path
unfoldable pub use Depth.*
unfoldable pub use Ancestry.*
unfoldable pub use Path.*
