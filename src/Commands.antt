-- ===== src/Commands.antt =====
-- src/sub_command: the commands of the program.
pub mod KeServer
pub mod NtpServer
pub mod Client
