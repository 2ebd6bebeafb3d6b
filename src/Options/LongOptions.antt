-- ===== src/Options/LongOptions.antt =====
-- rsyncopts/rsyncopts.go: Options.table, the options of the client and of the server.
pub mod Attributes
pub mod Transfer
use go_rsync_receiver.Prelude.{List, ◌++◌}
use go_rsync_receiver.Options.Popt.{PoptOption}
use go_rsync_receiver.Options.LongOptions.Attributes.{attribute_options}
use go_rsync_receiver.Options.LongOptions.Transfer.{transfer_options}

abbrev pub table : List PoptOption
table = attribute_options ++ transfer_options
