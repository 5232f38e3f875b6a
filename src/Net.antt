-- ===== src/Net.antt =====
-- Go's net and net/url, as far as the program calls them.
pub mod Escape
pub mod Ip
pub mod Url
pub mod Dotted
