-- ===== src/LogParse/Main/Printed.antt =====
-- applets/log_parse/log_parse.c in JSON mode: what a run prints, by the lines that the filter wants.
use ws_pipeline_dispatcher.Prelude.{
  List, [], ◌∷◌, ◌++◌, ◌≡◌, Option, none, some, length, map, Bytes,
}
use ws_pipeline_dispatcher.Prelude.Int.{ℤ, pos}
use ws_pipeline_dispatcher.Json.{Cjson}
use ws_pipeline_dispatcher.Json.Getters.{HasInteger}
use ws_pipeline_dispatcher.ClipStore.Number.{print_long}
use ws_pipeline_dispatcher.LogParse.Filter.{Filter}
use ws_pipeline_dispatcher.LogParse.Aggregate.{AggOp}
use ws_pipeline_dispatcher.LogParse.Aggregate.Fold.{aggregate_text}
use ws_pipeline_dispatcher.LogParse.Main.{Format, format_json, format_count, World}
use ws_pipeline_dispatcher.LogParse.Main.Wanted.{Selects, Wanted}
use ws_pipeline_dispatcher.LogParse.Main.Json.{unlines, run_json}

-- The integers that the objects of the texts have under the key, of those that have one.
pub data Numbers (lib : Cjson) (key : Bytes) : List Bytes → List ℤ → Type 0 where
  no_texts : Numbers lib key [] []
  has :
      (text : Bytes) (z : ℤ) {texts : List Bytes} {zs : List ℤ}
      → HasInteger lib text key z
      → Numbers lib key texts zs
      → Numbers lib key (text ∷ texts) (z ∷ zs)
  lacks :
      (text : Bytes) {texts : List Bytes} {zs : List ℤ}
      → ((z : ℤ) → ¬ HasInteger lib text key z)
      → Numbers lib key texts zs
      → Numbers lib key (text ∷ texts) zs

module _ {W : Type 0} (w : World W) (filter : Option Filter) where
  -- The runs of a program on the same lines in each way of printing.
  pub record Prints (lines : List Bytes) (fmt : Format) (op : AggOp) (key : Bytes) : Type 0 where
    pub kept : List Bytes
    pub selects : Selects (λ text. Wanted w.lib text filter) lines kept
    pub zs : List ℤ
    pub numbers_are : Numbers w.lib key kept zs
    pub counts :
        ((run_json w filter format_count none lines).1 ≡ 0)
        × ((run_json w filter format_count none lines).0.out
            ≡ print_long (pos (length kept)) ++ b'\n' ∷ [])
    pub prints :
        ((run_json w filter format_json none lines).1 ≡ 0)
        × ((run_json w filter format_json none lines).0.out ≡ unlines w filter kept)
    pub aggregates :
        ((run_json w filter fmt (some (op, key)) lines).1 ≡ 0)
        × ((run_json w filter fmt (some (op, key)) lines).0.out
            ≡ aggregate_text w.doubles op (map w.doubles.of_int zs))
