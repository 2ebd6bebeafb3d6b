-- ===== src/Options/Start.antt =====
-- rsyncopts/rsyncopts.go: the tables and the contexts that ParseArguments starts its loops from.
use go_rsync_receiver.Prelude.{Bool, List, [], ◌++◌, Bytes, if◌then◌else◌}
use go_rsync_receiver.Options.Fields.{Options}
use go_rsync_receiver.Options.Popt.{PoptOption, Context}
use go_rsync_receiver.Options.DaemonOptions.{gokrazy_table}

-- The context that a loop starts from, and the table with or without the options of gokrazy.
unfoldable pub start : List PoptOption → List Bytes → Options → Context
start t args o = record {
  table = t;
  args = args;
  next_char_arg = [];
  next_arg = [];
  options = o;
  remaining_args = [];
}

unfoldable pub with_gokrazy : Bool → List PoptOption → List PoptOption
with_gokrazy gokrazy t = if gokrazy then gokrazy_table ++ t else t
