-- ===== src/LogParse/Aggregate.antt =====
-- applets/log_parse/log_parse.c: the aggregates over the matched lines. `double` is a parameter with
-- the operations that the code uses.
pub mod Exact
pub mod Fold
use ws_pipeline_dispatcher.Prelude.{
  ℕ, suc, ◌+◌, ◌*◌, ◌^◌, ◌≤◌, ◌<◌, Bool, true, false, List, [], ◌∷◌, ◌++◌, ◌≡◌, ◌≢◌, refl, sym, ap,
  ◌∙◌, inl, inr, Option, none, some, arith, ltb, leb, ◌==◌, if◌then◌else◌, if_ind, Bool-cases,
  length, Bytes, codes,
}
use ws_pipeline_dispatcher.Prelude.Int.{
  ℤ, pos, negsuc, ◌+ℤ◌, ◌≤ℤ◌, ◌<ℤ◌, ltb_ℤ, ltb_ℤ→lt, ltb_ℤ→le, int_laws, pos_part, neg_part,
}
use ws_pipeline_dispatcher.Json.{max_safe_integer}

-- `double`: 0, a cast from an integer, `atof`, `+`, `<`, the quotient by a count, and "%.2f".
pub record Doubles (W : Type 0) : Type 0 where
  pub nought : W
  pub of_int : ℤ → W
  pub atof : Bytes → W
  pub plus : W → W → W
  pub less : W → W → Bool
  pub over : W → ℕ → W
  pub print : W → Bytes

-- `agg_op_t` without AGG_NONE, which is `none` where it can be.
pub data AggOp : Type 0 where
  agg_sum agg_avg agg_min agg_max : AggOp

-- `agg_sum`, `agg_min`, `agg_max` and `agg_count`
pub record Agg (W : Type 0) : Type 0 where
  pub sum : W
  pub least : W
  pub most : W
  pub count : ℕ

module _ {W : Type 0} (d : Doubles W) where
  abbrev pub no_values : Agg W
  no_values = record { sum = d.nought; least = d.nought; most = d.nought; count = 0 }

  -- The update with a value.
  unfoldable pub add_value : Agg W → W → Agg W
  add_value agg val =
      let least = if agg.count == 0 then val else agg.least in
      let most = if agg.count == 0 then val else agg.most in
      record {
        sum = d.plus agg.sum val;
        least = if d.less val least then val else least;
        most = if d.less most val then val else most;
        count = agg.count + 1;
      }

  -- The print at the end.
  unfoldable pub print_aggregate : AggOp → Agg W → Bytes
  print_aggregate op agg = if agg.count == 0 then codes "0\n" else d.print (value op) ++ b'\n' ∷ []
    where
      value : AggOp → W
      value agg_sum = agg.sum
      value agg_avg = d.over agg.sum agg.count
      value agg_min = agg.least
      value agg_max = agg.most

  unfoldable pub add_values : List W → Agg W → Agg W
  unfolding add_value
  add_values [] agg = agg
  add_values (v ∷ vs) agg = add_values vs (add_value agg v)

-- An integer that a `double` holds exactly, as the getter returns it.
abbrev pub IsSafe : ℤ → Type 0
IsSafe z = pos_part z + neg_part z ≤ max_safe_integer

-- What IEEE 754 says of integers up to 2^53: casts, sums and comparisons are exact.
pub record IsExact {W : Type 0} (d : Doubles W) : Type 0 where
  pub nought : d.nought ≡ d.of_int (pos 0)
  pub less : (a b : ℤ) → IsSafe a → IsSafe b → d.less (d.of_int a) (d.of_int b) ≡ ltb_ℤ a b
  pub plus :
      (a b : ℤ)
      → IsSafe a
      → IsSafe b
      → IsSafe (a +ℤ b)
      → d.plus (d.of_int a) (d.of_int b) ≡ d.of_int (a +ℤ b)
