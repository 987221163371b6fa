-- ===== src/Strings.antt =====
-- lib/str*.c, lib/mem*.c, lib/bzero.c and lib/atoi.c: the string library.
-- A pointer argument is the list of the bytes from where it points to the end of its object; a
-- function that would read or write past that end returns `none`. Source and target of a copy are
-- different objects. Characters are the unsigned bytes of the ARM ABI. A counter that counts bytes
-- of one object is a ℕ: no object has 2 ^ 31 bytes, so it cannot wrap.
pub mod CString
pub mod Scan
pub mod Compare
pub mod Copy
pub mod Number
mod Tests
