-- ===== src/Options/Codes.antt =====
-- rsyncopts/rsyncopts.go: the codes that poptGetNextOpt returns for the options with special cases.
use go_rsync_receiver.Prelude.Int.{ℤ, pos}

abbrev pub opt_server : ℤ
opt_server = pos 1000

abbrev pub opt_daemon : ℤ
opt_daemon = pos 1001

abbrev pub opt_sender : ℤ
opt_sender = pos 1002

abbrev pub opt_exclude : ℤ
opt_exclude = pos 1003

abbrev pub opt_exclude_from : ℤ
opt_exclude_from = pos 1004

abbrev pub opt_filter : ℤ
opt_filter = pos 1005

abbrev pub opt_compare_dest : ℤ
opt_compare_dest = pos 1006

abbrev pub opt_copy_dest : ℤ
opt_copy_dest = pos 1007

abbrev pub opt_link_dest : ℤ
opt_link_dest = pos 1008

abbrev pub opt_help : ℤ
opt_help = pos 1009

abbrev pub opt_include : ℤ
opt_include = pos 1010

abbrev pub opt_include_from : ℤ
opt_include_from = pos 1011

abbrev pub opt_modify_window : ℤ
opt_modify_window = pos 1012

abbrev pub opt_min_size : ℤ
opt_min_size = pos 1013

abbrev pub opt_chmod : ℤ
opt_chmod = pos 1014

abbrev pub opt_read_batch : ℤ
opt_read_batch = pos 1015

abbrev pub opt_write_batch : ℤ
opt_write_batch = pos 1016

abbrev pub opt_only_write_batch : ℤ
opt_only_write_batch = pos 1017

abbrev pub opt_max_size : ℤ
opt_max_size = pos 1018

abbrev pub opt_no_d : ℤ
opt_no_d = pos 1019

abbrev pub opt_append : ℤ
opt_append = pos 1020

abbrev pub opt_no_iconv : ℤ
opt_no_iconv = pos 1021

abbrev pub opt_info : ℤ
opt_info = pos 1022

abbrev pub opt_debug : ℤ
opt_debug = pos 1023

abbrev pub opt_block_size : ℤ
opt_block_size = pos 1024

abbrev pub opt_usermap : ℤ
opt_usermap = pos 1025

abbrev pub opt_groupmap : ℤ
opt_groupmap = pos 1026

abbrev pub opt_chown : ℤ
opt_chown = pos 1027

abbrev pub opt_bwlimit : ℤ
opt_bwlimit = pos 1028

abbrev pub opt_stderr : ℤ
opt_stderr = pos 1029

abbrev pub opt_old_compress : ℤ
opt_old_compress = pos 1030

abbrev pub opt_new_compress : ℤ
opt_new_compress = pos 1031

abbrev pub opt_no_compress : ℤ
opt_no_compress = pos 1032

abbrev pub opt_old_args : ℤ
opt_old_args = pos 1033

abbrev pub opt_stop_after : ℤ
opt_stop_after = pos 1034

abbrev pub opt_stop_at : ℤ
opt_stop_at = pos 1035

abbrev pub opt_refused_base : ℤ
opt_refused_base = pos 9000
