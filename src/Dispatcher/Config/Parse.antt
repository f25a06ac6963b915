-- ===== src/Dispatcher/Config/Parse.antt =====
-- applets/pipeline_dispatcher/pd_config.c: the options of the dispatcher, as `getopt_long` returns
-- them, and the paths of the applets beside it.
use ws_pipeline_dispatcher.Prelude.{
  ℕ, ◌+◌, List, [], ◌∷◌, ◌++◌, Option, none, some, ltb, ◌==◌, if◌then◌else◌, length, Bytes, codes,
}
use ws_pipeline_dispatcher.Library.{path_max}
use ws_pipeline_dispatcher.Dispatcher.Config.{Config}

-- The text in front of the last `/`.
abbrev pub in_front : ℕ → Option Bytes → Option Bytes
in_front c none = if c == b'/' then some [] else none
in_front c (some dir) = some (c ∷ dir)

unfoldable pub dir_of : Bytes → Option Bytes
dir_of [] = none
dir_of (c ∷ s) = in_front c (dir_of s)

-- The path of the running program, if `readlink` gives it, or `argv[0]`.
abbrev pub base_path : Option Bytes → Bytes → Bytes
base_path none argv0 = argv0
base_path (some exe) argv0 = exe

abbrev pub path_in : Bytes → Option Bytes → Option Bytes
path_in name none =
    let path = codes "./" ++ name in if ltb (length path) path_max then some path else none
path_in name (some dir) =
    if ltb path_max (length dir + 1 + length name + 1) then none else some (dir ++ b'/' ∷ name)

-- `sibling_path` into a buffer of PATH_MAX bytes; `none` stands for -1.
unfoldable pub sibling_path : Option Bytes → Bytes → Bytes → Option Bytes
unfolding dir_of
sibling_path exe argv0 name = path_in name (dir_of (base_path exe argv0))

-- What `getopt_long` returns, with `optarg`.
pub data ConfigOpt : Type 0 where
  opt_ttl opt_clip_secs opt_idle_secs opt_filter : Bytes → ConfigOpt
  opt_help opt_unknown : ConfigOpt

-- What `pd_config_parse` returns: 0, 1 or -1.
pub data ParsedConfig : Type 0 where
  parsed : Config → ParsedConfig
  helped refused : ParsedConfig

abbrev pub defaults : Config
defaults = record {
  session_id = [];
  src_dir = [];
  db_path = [];
  ttl = codes "300";
  clip_secs = codes "5";
  idle_secs = codes "2";
  filter = codes "type=clip";
  bin_stream_merge = [];
  bin_log_parse = [];
  bin_clip_store = [];
}

abbrev pub and_parsed : ParsedConfig → (Config → ParsedConfig) → ParsedConfig
and_parsed (parsed cfg) next = next cfg
and_parsed helped next = helped
and_parsed refused next = refused

-- A case of the option loop.
unfoldable pub take_opt : ConfigOpt → Config → ParsedConfig
take_opt (opt_ttl s) cfg = parsed (record cfg { ttl = s })
take_opt (opt_clip_secs s) cfg = parsed (record cfg { clip_secs = s })
take_opt (opt_idle_secs s) cfg = parsed (record cfg { idle_secs = s })
take_opt (opt_filter s) cfg = parsed (record cfg { filter = s })
take_opt opt_help cfg = helped
take_opt opt_unknown cfg = refused

unfoldable pub take_opts : List ConfigOpt → Config → ParsedConfig
unfolding take_opt
take_opts [] cfg = parsed cfg
take_opts (opt ∷ opts) cfg = and_parsed (take_opt opt cfg) (take_opts opts)

-- The paths of the applets, where all of them fit.
abbrev pub put_bins : Config → Option Bytes → Option Bytes → Option Bytes → ParsedConfig
put_bins cfg (some merge) (some parse) (some store) =
    parsed (record cfg { bin_stream_merge = merge; bin_log_parse = parse; bin_clip_store = store })
put_bins cfg none parse store = refused
put_bins cfg (some merge) none store = refused
put_bins cfg (some merge) (some parse) none = refused

module _ (exe : Option Bytes) (argv0 : Bytes) where
  -- The arguments behind the options: there have to be three.
  abbrev pub take_args : List Bytes → Config → ParsedConfig
  take_args (session ∷ src ∷ db ∷ []) cfg =
      put_bins (record cfg { session_id = session; src_dir = src; db_path = db })
        (sibling_path exe argv0 (codes "stream_merge")) (sibling_path exe argv0 (codes "log_parse"))
        (sibling_path exe argv0 (codes "clip_store"))
  take_args args cfg = refused

  -- `pd_config_parse`
  unfoldable pub config_parse : List ConfigOpt → List Bytes → ParsedConfig
  unfolding take_opts sibling_path
  config_parse opts args = and_parsed (take_opts opts defaults) (take_args args)
