-- ===== src/LogParse/Aggregate/Fold.antt =====
-- applets/log_parse/log_parse.c: the text of each aggregate, as a fold over the values.
use ws_pipeline_dispatcher.Prelude.{
  suc, ◌+◌, ◌<◌, Bool, false, List, [], ◌∷◌, ◌++◌, ◌≡◌, refl, ap, ◌∙◌, arith, ◌==◌, if◌then◌else◌,
  if_ind, length, Bytes, codes,
}
use ws_pipeline_dispatcher.LogParse.Aggregate.{
  Doubles, AggOp, agg_sum, agg_avg, agg_min, agg_max, Agg, no_values, add_value, add_values,
  print_aggregate,
}

module _ {W : Type 0} (d : Doubles W) where
  -- The sum in the order of the values, and the first of the least and of the greatest.
  abbrev pub sum_from : W → List W → W
  sum_from acc [] = acc
  sum_from acc (v ∷ vs) = sum_from (d.plus acc v) vs

  abbrev pub least_from : W → List W → W
  least_from m [] = m
  least_from m (v ∷ vs) = least_from (if d.less v m then v else m) vs

  abbrev pub most_from : W → List W → W
  most_from m [] = m
  most_from m (v ∷ vs) = most_from (if d.less m v then v else m) vs

  -- The aggregate of at least one value.
  abbrev pub aggregate_of : AggOp → W → List W → W
  aggregate_of agg_sum v vs = sum_from d.nought (v ∷ vs)
  aggregate_of agg_avg v vs = d.over (sum_from d.nought (v ∷ vs)) (suc (length vs))
  aggregate_of agg_min v vs = least_from v vs
  aggregate_of agg_max v vs = most_from v vs

  -- And its text.
  abbrev pub aggregate_text : AggOp → List W → Bytes
  aggregate_text op [] = codes "0\n"
  aggregate_text op (v ∷ vs) = d.print (aggregate_of op v vs) ++ b'\n' ∷ []

  record Folded (vs : List W) (before after : Agg W) : Type 0 where
    sum : after.sum ≡ sum_from before.sum vs
    least : after.least ≡ least_from before.least vs
    most : after.most ≡ most_from before.most vs
    count : after.count ≡ before.count + length vs

  add_values-Folded :
      (vs : List W) (agg : Agg W) → 0 < agg.count → Folded vs agg (add_values d vs agg)
  unfolding add_values add_value
  add_values-Folded [] agg h = record { sum = refl; least = refl; most = refl; count = omega arith }
  add_values-Folded (v ∷ vs) agg h =
      let later : (agg.count == 0) ≡ false = ground arith in
      let f = add_values-Folded vs (add_value d agg v) (omega arith) in
      let count = f.count in
      record {
        sum = f.sum;
        least =
            f.least
            ∙ ap
                (λ b.
                  least_from
                    (if d.less v (if b then v else agg.least)
                      then v
                      else (if b then v else agg.least))
                    vs)
                later;
        most =
            f.most
            ∙ ap
                (λ b.
                  most_from
                    (if d.less (if b then v else agg.most) v
                      then v
                      else (if b then v else agg.most))
                    vs)
                later;
        count = omega arith;
      }

  same_either : (b : Bool) (v : W) → (if b then v else v) ≡ v
  same_either b v = if_ind (λ w. w ≡ v) b (λ e. refl) (λ e. refl)

  abbrev chosen : AggOp → Agg W → W
  chosen agg_sum agg = agg.sum
  chosen agg_avg agg = d.over agg.sum agg.count
  chosen agg_min agg = agg.least
  chosen agg_max agg = agg.most

  shown :
      (op : AggOp) (agg : Agg W)
      → (agg.count == 0) ≡ false
      → print_aggregate d op agg ≡ d.print (chosen op agg) ++ b'\n' ∷ []
  unfolding print_aggregate
  shown agg_sum agg e = rw e refl
  shown agg_avg agg e = rw e refl
  shown agg_min agg e = rw e refl
  shown agg_max agg e = rw e refl

  chosen_lem :
      (op : AggOp) (v : W) (vs : List W) (agg : Agg W)
      → Folded vs (add_value d (no_values d) v) agg
      → chosen op agg ≡ aggregate_of op v vs
  unfolding add_value
  chosen_lem agg_sum v vs agg f = f.sum
  chosen_lem agg_avg v vs agg f =
      let count : agg.count ≡ suc (length vs) = let c = f.count in omega arith in
      λ i. d.over (f.sum i) (count i)
  chosen_lem agg_min v vs agg f = f.least ∙ ap (λ w. least_from w vs) (same_either (d.less v v) v)
  chosen_lem agg_max v vs agg f = f.most ∙ ap (λ w. most_from w vs) (same_either (d.less v v) v)

  pub print_aggregate_lem :
      (op : AggOp) (vs : List W)
      → print_aggregate d op (add_values d vs (no_values d)) ≡ aggregate_text op vs
  unfolding print_aggregate add_values
  print_aggregate_lem op [] = refl
  print_aggregate_lem op (v ∷ vs) =
      let first = add_value d (no_values d) v in
      let f = add_values-Folded vs first (unfold add_value in omega arith) in
      let some_value : (add_values d (v ∷ vs) (no_values d)).count ≡ first.count + length vs =
        f.count in
      let one : first.count ≡ 1 = unfold add_value in refl in
      shown op (add_values d (v ∷ vs) (no_values d)) (ground arith)
      ∙ ap (λ w. d.print w ++ b'\n' ∷ []) (chosen_lem op v vs _ f)
