-- ===== src/ClipStore/Tests.antt =====
-- Runs of applets/clip_store on small databases, with a stand-in for miniz that only tags a value.
use ws_pipeline_dispatcher.Prelude.{
  ℕ, ◌+◌, ◌<◌, ◌^◌, true, [], ◌∷◌, ◌++◌, ◌≡◌, refl, arith, none, some, if◌then◌else◌, leb, length,
  Bytes, codes, equal,
}
use ws_pipeline_dispatcher.Prelude.Int.{pos, negsuc}
use ws_pipeline_dispatcher.Base64.Spec.{AllBytes}
use ws_pipeline_dispatcher.ClipStore.Answer.{Settles}
use ws_pipeline_dispatcher.ClipStore.Row.{Row}
use ws_pipeline_dispatcher.ClipStore.Index.{zero_index, Allocator, row_index_put, load_latest_row}
use ws_pipeline_dispatcher.ClipStore.Index.Latest.{latest}
use ws_pipeline_dispatcher.ClipStore.Index.Grow.{Generous, Serves, fresh}
use ws_pipeline_dispatcher.ClipStore.Index.Put.{IsPut, put_lem}
use ws_pipeline_dispatcher.ClipStore.Index.Load.{Loads}
use ws_pipeline_dispatcher.ClipStore.Format.{
  Zlib, Inflated, z_ok, z_buf_error, z_failed, System, read_rows, read_lines,
}
use ws_pipeline_dispatcher.ClipStore.Format.Text.{no_line, above_controls}
use ws_pipeline_dispatcher.ClipStore.Format.Packed.{IsText, IsZlib, IsReady}
use ws_pipeline_dispatcher.ClipStore.Format.File.{
  IsStorable, load_latest_row_lem, append_then_get, append_rows, append_rows-read_rows,
  append_rows-total, line_of, append-total,
}
use ws_pipeline_dispatcher.ClipStore.Compact.{Disk, db_rewrite_compact}
use ws_pipeline_dispatcher.ClipStore.Compact.Live.{live_only}
use ws_pipeline_dispatcher.ClipStore.Compact.Keeps.{RowsStorable, compact-keeps, compact-succeeds}

unfoldable pub inflate_tagged : ℕ → Bytes → Inflated
inflate_tagged size [] = z_failed
inflate_tagged size (tag ∷ value) = if leb (length value) size then z_ok value else z_buf_error

abbrev pub tagging : Zlib
tagging = record {
  compress_bound = λ n. n + 1;
  compress = λ size value. some (0 ∷ value);
  uncompress = inflate_tagged;
}

IsText-AllBytes : (s : Bytes) → IsText s → AllBytes s
IsText-AllBytes [] h = tt
IsText-AllBytes (c ∷ s) (_, l, h) = (l, IsText-AllBytes s h)

pub tagging-IsZlib : IsZlib tagging
unfolding inflate_tagged
tagging-IsZlib = record {
  packed = λ value. 0 ∷ value;
  compresses = λ value v. refl;
  octets = λ value v. (omega arith, IsText-AllBytes value v.text);
  filled = λ value v e. cc;
  short = λ value v. omega (arith, v.short);
  restores = λ value size v h. ground arith;
  too_small = λ value size v h. ground arith;
}

abbrev pub ready : System
ready = record { grants = λ n. true; seeks = true; prints = true; reads = true }

pub ready-IsReady : IsReady ready
ready-IsReady = record { memory = λ n. refl; seeking = refl; printing = refl }

abbrev pub generous : Allocator
generous = record { grants_buckets = λ n. true; grants_copy = λ row. true }

pub generous-Generous : Generous generous
generous-Generous = record { all_buckets = λ n. refl; all_copies = λ row. refl }

abbrev clip_row : Row
clip_row = record { key = codes "a:1"; value = codes "hi"; expire_at = pos 50 }

abbrev other_row : Row
other_row = record { key = codes "b:1"; value = []; expire_at = negsuc 0 }

clip_row-IsStorable : IsStorable clip_row
clip_row-IsStorable = record {
  field = (
    above_controls b'a' (omega arith),
    (above_controls b':' (omega arith), (above_controls b'1' (omega arith), tt)),
  );
  value = record {
    text = (λ e. absurd (omega arith), omega arith, (λ e. absurd (omega arith), omega arith, tt));
    short = omega arith;
  };
  long = omega arith;
}

other_row-IsStorable : IsStorable other_row
other_row-IsStorable = record {
  field = (
    above_controls b'b' (omega arith),
    (above_controls b':' (omega arith), (above_controls b'1' (omega arith), tt)),
  );
  value = record { text = tt; short = omega arith };
  long = omega arith;
}

put_lem_example :
    Settles
      (Serves generous 1)
      (IsPut zero_index clip_row)
      (row_index_put generous zero_index clip_row)
put_lem_example = put_lem generous zero_index clip_row (fresh refl)

-- Two rows of one key and a line that is no row.
abbrev three_lines : Bytes
three_lines = codes "b\t\t5\nx\nb\t\t7\n"

load_latest_row_lem_example :
    Settles
      (Loads generous true (read_rows tagging ready three_lines))
      (λ out.
        (out ≡ latest (codes "b") (read_rows tagging ready three_lines) none)
        × (ready.reads ≡ true))
      (load_latest_row generous true (read_rows tagging ready three_lines) (codes "b"))
load_latest_row_lem_example = load_latest_row_lem generous tagging ready three_lines (codes "b")

append_then_get_example :
    let file' = [] ++ (line_of tagging-IsZlib clip_row ++ 10 ∷ []) in
    Settles
      (Loads generous true (read_rows tagging ready file'))
      (λ out. out ≡ (
        if equal clip_row.key (codes "a:1")
        then some clip_row
        else latest (codes "a:1") (read_rows tagging ready []) none))
      (load_latest_row generous true (read_rows tagging ready file') (codes "a:1"))
append_then_get_example =
    append_then_get tagging-IsZlib clip_row clip_row-IsStorable generous ready ready []
      (codes "a:1") ready-IsReady no_line
      (append-total tagging-IsZlib ready [] clip_row ready-IsReady clip_row-IsStorable)

abbrev written_file :
    (file' : Bytes) × (append_rows tagging ready [] (clip_row ∷ other_row ∷ []) ≡ some file')
written_file =
    append_rows-total tagging-IsZlib ready [] (clip_row ∷ other_row ∷ []) ready-IsReady
      (clip_row-IsStorable, (other_row-IsStorable, tt))

abbrev good_disk : Disk
good_disk = record { path_fits = true; opens = true; syncs = true; renames = true }

written-RowsStorable : RowsStorable (read_rows tagging ready written_file.0)
written-RowsStorable =
    rw
      (append_rows-read_rows tagging-IsZlib (clip_row ∷ other_row ∷ []) ready ready []
        (clip_row-IsStorable, (other_row-IsStorable, tt)) ready-IsReady no_line written_file.1)
      (unfold read_rows in unfold read_lines in (clip_row-IsStorable, (other_row-IsStorable, tt)))

written_few : length (read_rows tagging ready written_file.0) < 2 ^ 58
written_few =
    rw
      (append_rows-read_rows tagging-IsZlib (clip_row ∷ other_row ∷ []) ready ready []
        (clip_row-IsStorable, (other_row-IsStorable, tt)) ready-IsReady no_line written_file.1)
      (unfold read_rows in unfold read_lines in omega arith)

compact-keeps_example :
    let file' =
      (db_rewrite_compact generous tagging ready ready good_disk written_file.0 (pos 60)).1 in
    live_only (pos 70) (latest (codes "a:1") (read_rows tagging ready file') none)
    ≡ live_only (pos 70) (latest (codes "a:1") (read_rows tagging ready written_file.0) none)
compact-keeps_example =
    compact-keeps tagging-IsZlib generous ready ready good_disk written_file.0 (pos 60) (pos 70)
      (codes "a:1") ready-IsReady written-RowsStorable (omega arith)

compact-succeeds_example :
    (file' : Bytes) × (db_rewrite_compact generous tagging ready ready good_disk written_file.0
        (pos 60)
      ≡ (true, file'))
    × ((key : Bytes)
        → latest key (read_rows tagging ready file') none
          ≡ live_only (pos 60) (latest key (read_rows tagging ready written_file.0) none))
compact-succeeds_example =
    compact-succeeds tagging-IsZlib generous ready ready good_disk written_file.0 (pos 60)
      ready-IsReady ready-IsReady generous-Generous refl written_few refl written-RowsStorable
