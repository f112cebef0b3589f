-- ===== src/Nulls.antt =====
-- The executable null models of src/selcal/nulls/: tokens, the transform they own, and the
-- circular-shift and block-shuffle policies. A text that is compared is the list of its codes.
pub mod Token
pub mod Owned
pub mod Circular
pub mod Block
mod Tests
