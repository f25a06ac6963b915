-- ===== src/ClipStore/Format/File.antt =====
-- A row that was appended is read back from the file, behind the rows that were there.
use mathlib.Core.List.{map-append, append-nil, append_assoc}
use ws_pipeline_dispatcher.Prelude.{
  true, List, [], ◌∷◌, ◌++◌, map, ◌≡◌, refl, sym, ap, ◌∙◌, inl, inr, Option, none, some, ◌>>=◌,
  bind-eq-some, arith, if◌then◌else◌, Bool-cases, Bytes, equal,
}
use ws_pipeline_dispatcher.ClipStore.Answer.{Settles, Settles-map}
use ws_pipeline_dispatcher.ClipStore.Row.{Row}
use ws_pipeline_dispatcher.ClipStore.Number.{print_long, IsLong, whole_long-print_long}
use ws_pipeline_dispatcher.ClipStore.Format.Text.{
  IsField, IsLine, joined-IsLine, split_at-field, cut_line-line, IsFile, IsFile-append,
  read_lines-append, print_long-IsLine,
}
use ws_pipeline_dispatcher.ClipStore.Format.Packed.{
  IsValue, IsZlib, IsReady, field_of, field_of-IsField, stored_value-field, value_field_lem,
  value_field-total,
}
use ws_pipeline_dispatcher.ClipStore.Format.{
  Zlib, System, parse_db_row, value_field, db_line, append_db_row, cut_line, read_lines, read_rows,
}
use ws_pipeline_dispatcher.ClipStore.Index.{Allocator, load_latest_row}
use ws_pipeline_dispatcher.ClipStore.Index.Load.{Loads, latest_row_lem}
use ws_pipeline_dispatcher.ClipStore.Index.Latest.{latest}

-- A row that the file format can hold: the key has no NUL, tab or end of a line.
pub record IsStorable (row : Row) : Type 0 where
  pub field : IsField row.key
  pub value : IsValue row.value
  pub long : IsLong row.expire_at

abbrev pub line_of : {zlib : Zlib} → IsZlib zlib → Row → Bytes
line_of z row = db_line row.key (field_of z row.value) row.expire_at

module _ {zlib : Zlib} (z : IsZlib zlib) (row : Row) (h : IsStorable row) where
  parse-line : (sys : System) → IsReady sys → parse_db_row zlib sys (line_of z row) ≡ some row
  unfolding parse_db_row db_line
  parse-line sys ready =
      let value_at =
        split_at-field (field_of z row.value) (print_long row.expire_at)
          (field_of-IsField z row.value h.value) in
      rw (split_at-field row.key (field_of z row.value ++ 9 ∷ print_long row.expire_at) h.field) (
        rw value_at (
          rw (whole_long-print_long row.expire_at h.long)
            (rw (stored_value-field z sys row.value ready h.value) refl)))

  line_of-IsLine : IsLine (line_of z row)
  unfolding db_line
  line_of-IsLine = joined-IsLine row.key _ h.field (
      joined-IsLine (field_of z row.value) (print_long row.expire_at)
        (field_of-IsField z row.value h.value) (print_long-IsLine row.expire_at))

  -- A call that succeeds has added the line of the row.
  append-line :
      (sys : System) (file : Bytes) {file' : Bytes}
      → append_db_row zlib sys file row.key row.value row.expire_at ≡ some file'
      → file' ≡ file ++ (line_of z row ++ 10 ∷ [])
  unfolding append_db_row value_field
  append-line sys file e = elim (Bool-cases sys.seeks) [
    | inr denied ↦ let e' = rw denied at e in cc
    | inl granted ↦
        let e' = rw granted at e in
        let (field, f, e2) = bind-eq-some (value_field zlib sys row.value) _ e' in
        let same = value_field_lem z sys row.value h.value f in
        elim (Bool-cases sys.prints) [
          | inr denied ↦ let e3 = rw denied at e2 in cc
          | inl granted' ↦ let e3 = rw (granted', same) at e2 in cc
        ]
  ]

  -- The rows of the new file are those of the old one and the row.
  pub append-read_rows :
      (writer reader : System) (file : Bytes) {file' : Bytes}
      → IsReady reader
      → IsFile file
      → append_db_row zlib writer file row.key row.value row.expire_at ≡ some file'
      → IsFile file' × (read_rows zlib reader file' ≡ read_rows zlib reader file ++ some row ∷ [])
  unfolding read_rows
  append-read_rows writer reader file ready f e =
      let line = line_of-IsLine in
      let parsed : parse_db_row zlib reader (cut_line (line_of z row ++ 10 ∷ [])) ≡ some row =
        rw (cut_line-line (line_of z row) [] line) (parse-line reader ready) in
      let read : Bytes → Option Row = λ l. parse_db_row zlib reader (cut_line l) in
      rw (append-line writer file e) (
        IsFile-append file (line_of z row) f line,
        ap (map read) (read_lines-append file (line_of z row) f line)
            ∙ map-append read (read_lines file) _
            ∙ ap (λ r. map read (read_lines file) ++ r ∷ []) parsed,
      )

-- The lookup of a key through the hash index gives the last row that is read of the file with
-- that key, or nothing if there is none; it always ends, it fails if a read of the file fails,
-- and otherwise only if memory runs out for the index or the row or 2^58 lines or more are read.
pub load_latest_row_lem :
    (alloc : Allocator) (zlib : Zlib) (sys : System) (file key : Bytes)
    → Settles
        (Loads alloc sys.reads (read_rows zlib sys file))
        (λ out. (out ≡ latest key (read_rows zlib sys file) none) × (sys.reads ≡ true))
        (load_latest_row alloc sys.reads (read_rows zlib sys file) key)
load_latest_row_lem alloc zlib sys file key =
    latest_row_lem alloc sys.reads (read_rows zlib sys file) key

latest-append :
    (key : Bytes) (rows : List (Option Row)) (row : Row) (known : Option Row)
    → latest key (rows ++ some row ∷ []) known
      ≡ (if equal row.key key then some row else latest key rows known)
unfolding latest
latest-append key [] row known = refl
latest-append key (none ∷ rows) row known = latest-append key rows row known
latest-append key (some r ∷ rows) row known =
    latest-append key rows row (if equal r.key key then some r else known)

-- After a storable row was appended to a file of whole lines, a lookup of its key gives that row
-- and a lookup of another key gives what the old file says; the lookup ends, and fails only if
-- memory runs out for it, a read fails, or 2^58 lines or more are read.
pub append_then_get :
    {zlib : Zlib} (z : IsZlib zlib) (row : Row) (h : IsStorable row) (alloc : Allocator)
    (writer reader : System) (file : Bytes) {file' : Bytes} (key : Bytes)
    → IsReady reader
    → IsFile file
    → append_db_row zlib writer file row.key row.value row.expire_at ≡ some file'
    → Settles
        (Loads alloc reader.reads (read_rows zlib reader file'))
        (λ out.
          out
          ≡ (if equal row.key key then some row else latest key (read_rows zlib reader file) none))
        (load_latest_row alloc reader.reads (read_rows zlib reader file') key)
append_then_get {zlib} z row h alloc writer reader file key ready f e =
    let (_, rows) = append-read_rows z row h writer reader file ready f e in
    rw rows (
      rw (← (latest-append key (read_rows zlib reader file) row none)) (
        Settles-map (λ out h. h.0)
          (latest_row_lem alloc reader.reads (read_rows zlib reader file ++ some row ∷ []) key)))

-- Rows appended one after the other, up to the first call that fails.
unfoldable pub append_rows : Zlib → System → Bytes → List Row → Option Bytes
append_rows zlib sys file [] = some file
append_rows zlib sys file (row ∷ rows) = do
  file' ← append_db_row zlib sys file row.key row.value row.expire_at
  append_rows zlib sys file' rows

abbrev pub AllStorable : List Row → Type 0
AllStorable [] = Unit
AllStorable (row ∷ rows) = IsStorable row × AllStorable rows

-- If storable rows are appended one after the other to a file of whole lines and all calls
-- succeed, reading the file gives the old rows and then the new ones in order.
pub append_rows-read_rows :
    {zlib : Zlib} (z : IsZlib zlib) (rows : List Row) (writer reader : System) (file : Bytes)
    {file' : Bytes}
    → AllStorable rows
    → IsReady reader
    → IsFile file
    → append_rows zlib writer file rows ≡ some file'
    → read_rows zlib reader file' ≡ read_rows zlib reader file ++ map some rows
unfolding append_rows
append_rows-read_rows {zlib} z [] writer reader file {file'} h ready f e =
    let same : file ≡ file' = ground arith in
    rw (← same) (sym (append-nil (read_rows zlib reader file)))
append_rows-read_rows {zlib} z (row ∷ rows) writer reader file (s, h) ready f e =
    let (file1, e1, e2) =
      bind-eq-some (append_db_row zlib writer file row.key row.value row.expire_at) _ e in
    let (f1, r1) = append-read_rows z row s writer reader file ready f e1 in
    append_rows-read_rows z rows writer reader file1 h ready f1 e2
    ∙ ap (λ l. l ++ map some rows) r1
    ∙ append_assoc (read_rows zlib reader file) (some row ∷ []) (map some rows)

-- With every call of the system granted, storable rows are appended.
pub append-total :
    {zlib : Zlib} (z : IsZlib zlib) (sys : System) (file : Bytes) (row : Row)
    → IsReady sys
    → IsStorable row
    → append_db_row zlib sys file row.key row.value row.expire_at
      ≡ some (file ++ (line_of z row ++ 10 ∷ []))
unfolding append_db_row value_field db_line
append-total z sys file row ready h =
    rw (ready.seeking, value_field-total z sys row.value ready h.value, ready.printing) refl

pub append_rows-total :
    {zlib : Zlib} (z : IsZlib zlib) (sys : System) (file : Bytes) (rows : List Row)
    → IsReady sys
    → AllStorable rows
    → (file' : Bytes) × (append_rows zlib sys file rows ≡ some file')
unfolding append_rows
append_rows-total z sys file [] ready h = (file, refl)
append_rows-total z sys file (row ∷ rows) ready (s, h) =
    let (file', e) = append_rows-total z sys (file ++ (line_of z row ++ 10 ∷ [])) rows ready h in
    (file', rw (append-total z sys file row ready s) e)
