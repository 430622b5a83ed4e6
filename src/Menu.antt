-- ===== src/Menu.antt =====
-- The boot menu of src/menu.c: its entries, the parsers of `menu.lst` and `Kicklayout`, the display.
pub mod Entry
pub mod Line
pub mod Parser
pub mod Loading
pub mod Free
pub mod Display
