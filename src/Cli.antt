-- ===== src/Cli.antt =====
-- Helpers of the command line and of the daemon's commands: cli/arg_parser.h and
-- shared/name_resolver.h.
pub mod Args
pub mod Resolver
