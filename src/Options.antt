-- ===== src/Options.antt =====
-- rsyncopts: the command line. popt.go walks the arguments by a table of options; rsyncopts.go holds
-- the tables, the fields that they set, and ParseArguments.
pub mod Fields
pub mod Codes
pub mod Popt
pub mod NextOpt
pub mod LongOptions
pub mod DaemonOptions
pub mod OutputWords
pub mod Access
pub mod SpecialCases
pub mod Settle
pub mod Start
pub mod Rows
pub mod Settled
pub mod Parse
