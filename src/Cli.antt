-- ===== src/Cli.antt =====
-- The command line tool with which a human approves or rejects: cmd/kubectl-claw.
pub mod Flags
pub mod Approval
pub mod Trailing
