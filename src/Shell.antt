-- ===== src/Shell.antt =====
-- shell/my_shell.c: a shell with foreground and background commands.
pub mod Tokens
pub mod Commands
pub mod Groups
pub mod Cut
pub mod Alias
pub mod Os
pub mod Procs
pub mod Execute
pub mod Reap
pub mod Lost
pub mod Main
pub mod Lines
pub mod Exit
mod Tests
