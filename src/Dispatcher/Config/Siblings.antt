-- ===== src/Dispatcher/Config/Siblings.antt =====
-- applets/pipeline_dispatcher/pd_config.c: the paths of a parsed command line run the applets.
use mathlib.Core.Path.{subst}
use ws_pipeline_dispatcher.Prelude.{
  ◌+◌, ◌<◌, List, [], ◌∷◌, ◌++◌, ◌≡◌, refl, sym, ap, ◌∙◌, Option, none, some, arith, length,
  length-append, Bytes, codes, equal,
}
use ws_pipeline_dispatcher.Library.{path_max}
use ws_pipeline_dispatcher.Dispatcher.Applet.{
  stream_merge, log_parse, clip_store, choose, run_applet, base_name, behind_slash-append, NoSlash,
}
use ws_pipeline_dispatcher.Dispatcher.Config.{Config}
use ws_pipeline_dispatcher.Dispatcher.Config.Parse.{
  base_path, path_in, dir_of, sibling_path, ConfigOpt, ParsedConfig, parsed, helped, refused,
  defaults, and_parsed, take_opts, put_bins, take_args, config_parse,
}

-- A path in some directory, within the buffer, that ends in the name.
record IsSibling (name path : Bytes) : Type 0 where
  dir : Bytes
  ends : path ≡ dir ++ b'/' ∷ name
  fits : length path < path_max

path_in-IsSibling :
    (name : Bytes) (o : Option Bytes) (path : Bytes)
    → path_in name o ≡ some path
    → IsSibling name path
path_in-IsSibling name none path e =
    let whole = codes "./" ++ name in
    let found : (length whole < path_max) × (whole ≡ path) = ground arith in
    record {
      dir = codes ".";
      ends = sym found.1;
      fits = let same = ap length found.1 in omega (arith, found.0, same);
    }
path_in-IsSibling name (some dir) path e =
    let whole = dir ++ b'/' ∷ name in
    let found : (length dir + 1 + length name < path_max) × (whole ≡ path) = ground arith in
    record {
      dir = dir;
      ends = sym found.1;
      fits =
          let same = ap length found.1 in
          omega (arith, found.0, same, length-append dir (b'/' ∷ name));
    }

sibling_path-IsSibling :
    (exe : Option Bytes) (argv0 name path : Bytes)
    → sibling_path exe argv0 name ≡ some path
    → IsSibling name path
unfolding sibling_path
sibling_path-IsSibling exe argv0 name path e =
    path_in-IsSibling name (dir_of (base_path exe argv0)) path e

base_name-IsSibling :
    (name path : Bytes) → NoSlash name → IsSibling name path → base_name path ≡ name
unfolding base_name
base_name-IsSibling name path n s =
    ap base_name s.ends ∙ behind_slash-append (s.dir ++ b'/' ∷ name) s.dir name n

-- The paths of a configuration fit their buffers and run the applets that they are for.
pub record RunsApplets (cfg : Config) : Type 0 where
  pub merge_fits : length cfg.bin_stream_merge < path_max
  pub parse_fits : length cfg.bin_log_parse < path_max
  pub store_fits : length cfg.bin_clip_store < path_max
  pub merges :
      (args : List Bytes)
      → choose (cfg.bin_stream_merge ∷ args) ≡ stream_merge (cfg.bin_stream_merge ∷ args)
  pub parses :
      (args : List Bytes) → choose (cfg.bin_log_parse ∷ args) ≡ log_parse (cfg.bin_log_parse ∷ args)
  pub stores :
      (args : List Bytes)
      → choose (cfg.bin_clip_store ∷ args) ≡ clip_store (cfg.bin_clip_store ∷ args)

merge-NoSlash : NoSlash (codes "stream_merge")
merge-NoSlash = ground arith

parse-NoSlash : NoSlash (codes "log_parse")
parse-NoSlash = ground arith

store-NoSlash : NoSlash (codes "clip_store")
store-NoSlash = ground arith

IsSibling-RunsApplets :
    (cfg : Config)
    → IsSibling (codes "stream_merge") cfg.bin_stream_merge
    → IsSibling (codes "log_parse") cfg.bin_log_parse
    → IsSibling (codes "clip_store") cfg.bin_clip_store
    → RunsApplets cfg
unfolding choose run_applet equal
IsSibling-RunsApplets cfg m p s = record {
  merge_fits = m.fits;
  parse_fits = p.fits;
  store_fits = s.fits;
  merges = λ args.
      rw (base_name-IsSibling (codes "stream_merge") cfg.bin_stream_merge merge-NoSlash m) refl;
  parses =
      λ args. rw (base_name-IsSibling (codes "log_parse") cfg.bin_log_parse parse-NoSlash p) refl;
  stores =
      λ args. rw (base_name-IsSibling (codes "clip_store") cfg.bin_clip_store store-NoSlash s) refl;
}

parsed_inj : {a b : Config} → parsed a ≡ parsed b → a ≡ b
parsed_inj h = cc

put_bins_args :
    (cfg cfg' : Config) (merge parse store : Option Bytes)
    → put_bins cfg merge parse store ≡ parsed cfg'
    → cfg.session_id ∷ cfg.src_dir ∷ cfg.db_path ∷ []
      ≡ cfg'.session_id ∷ cfg'.src_dir ∷ cfg'.db_path ∷ []
put_bins_args cfg cfg' (some merge) (some parse) (some store) e =
    ap (λ c. c.session_id ∷ c.src_dir ∷ c.db_path ∷ []) (parsed_inj e)
put_bins_args cfg cfg' none parse store e = absurd (cc)
put_bins_args cfg cfg' (some merge) none store e = absurd (cc)
put_bins_args cfg cfg' (some merge) (some parse) none e = absurd (cc)

module _ (exe : Option Bytes) (argv0 : Bytes) where
  put_bins-RunsApplets :
      (cfg cfg' : Config) (merge parse store : Option Bytes)
      → sibling_path exe argv0 (codes "stream_merge") ≡ merge
      → sibling_path exe argv0 (codes "log_parse") ≡ parse
      → sibling_path exe argv0 (codes "clip_store") ≡ store
      → put_bins cfg merge parse store ≡ parsed cfg'
      → RunsApplets cfg'
  put_bins-RunsApplets cfg cfg' (some merge) (some parse) (some store) em ep es e =
      subst RunsApplets (parsed_inj e) (
        IsSibling-RunsApplets _ (sibling_path-IsSibling exe argv0 (codes "stream_merge") merge em)
          (sibling_path-IsSibling exe argv0 (codes "log_parse") parse ep)
          (sibling_path-IsSibling exe argv0 (codes "clip_store") store es))
  put_bins-RunsApplets cfg cfg' none parse store em ep es e = absurd (cc)
  put_bins-RunsApplets cfg cfg' (some merge) none store em ep es e = absurd (cc)
  put_bins-RunsApplets cfg cfg' (some merge) (some parse) none em ep es e = absurd (cc)

  take_args-RunsApplets :
      (args : List Bytes) (cfg cfg' : Config)
      → take_args exe argv0 args cfg ≡ parsed cfg'
      → RunsApplets cfg' × (args ≡ cfg'.session_id ∷ cfg'.src_dir ∷ cfg'.db_path ∷ [])
  take_args-RunsApplets [] cfg cfg' e = absurd (cc)
  take_args-RunsApplets (session ∷ []) cfg cfg' e = absurd (cc)
  take_args-RunsApplets (session ∷ src ∷ []) cfg cfg' e = absurd (cc)
  take_args-RunsApplets (session ∷ src ∷ db ∷ []) cfg cfg' e =
      let base : Config = record cfg { session_id = session; src_dir = src; db_path = db } in
      (put_bins-RunsApplets base cfg' _ _ _ refl refl refl e, put_bins_args base cfg' _ _ _ e)
  take_args-RunsApplets (session ∷ src ∷ db ∷ more ∷ args) cfg cfg' e = absurd (cc)

  -- A command line that is parsed has three arguments behind the options, the session, the
  -- source directory and the database. The paths of the three applets fit their buffers, and
  -- each of them, started with any arguments, runs the applet that it is for.
  pub config_parse_lem :
      (opts : List ConfigOpt) (args : List Bytes) (cfg : Config)
      → config_parse exe argv0 opts args ≡ parsed cfg
      → RunsApplets cfg × (args ≡ cfg.session_id ∷ cfg.src_dir ∷ cfg.db_path ∷ [])
  unfolding config_parse
  config_parse_lem opts args cfg e = from_opts (take_opts opts defaults) e
    where
      from_opts :
          (r : ParsedConfig)
          → and_parsed r (take_args exe argv0 args) ≡ parsed cfg
          → RunsApplets cfg × (args ≡ cfg.session_id ∷ cfg.src_dir ∷ cfg.db_path ∷ [])
      from_opts (parsed cfg₀) e = take_args-RunsApplets args cfg₀ cfg e
      from_opts helped e = absurd (cc)
      from_opts refused e = absurd (cc)
