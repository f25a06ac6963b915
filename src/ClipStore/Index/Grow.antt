-- ===== src/ClipStore/Index/Grow.antt =====
-- Growing the index: the new table has room, and holds the rows of the old one.
use ws_pipeline_dispatcher.Prelude.{
  ℕ, zero, suc, ◌+◌, ◌*◌, ◌^◌, ◌≤◌, ◌<◌, Bool, true, false, [], ◌∷◌, ◌≡◌, ◌≢◌, refl, ◌∙◌, ap, inl,
  inr, none, some, arith, Bool-cases, length-replicate, get_or-replicate, replicate, set, Bytes,
  if◌then◌else◌, ltb, ◌==◌, ==_iff, ◌⊎◌,
}
use ws_pipeline_dispatcher.ClipStore.Answer.{Answer, ok, ◌>>=◌, Settles, refused, given}
use ws_pipeline_dispatcher.ClipStore.Row.{Row}
use ws_pipeline_dispatcher.ClipStore.Hash.{home_bucket}
use ws_pipeline_dispatcher.ClipStore.Hash.Mask.{pow_pos}
use ws_pipeline_dispatcher.ClipStore.Index.Table.{contents, home, IsTable}
use ws_pipeline_dispatcher.ClipStore.Index.Free.{used, place_lem}
use ws_pipeline_dispatcher.ClipStore.Index.Latest.{latest, latest-contents}
use ws_pipeline_dispatcher.ClipStore.Index.{
  u64, row_size, Buckets, slot, RowIndex, Allocator, probe, find_slot, allocate_buckets, move_rows,
  row_index_grow, zero_index,
}
use ws_pipeline_dispatcher.ClipStore.Index.Capacity.{next_capacity_lem}

-- The buckets of the index are a table, with at most `len` rows, and its size is within `size_t`.
pub record Holds (k : ℕ) (r : RowIndex) : Type 0 where
  pub wide : r.cap ≡ 2 ^ k
  pub table : IsTable k r.buckets
  pub counted : used r.buckets ≤ r.len
  pub sized : r.cap * row_size < u64

pub find_slot_at :
    (k : ℕ) (r : RowIndex) (key : Bytes)
    → r.cap ≡ 2 ^ k
    → find_slot r key ≡ probe (2 ^ k) r.buckets (2 ^ k) key (home k key)
unfolding find_slot
find_slot_at k r key h = ap (λ c. probe c r.buckets c key (home_bucket key c)) h

-- The index after the move of `old`.
record Moved (k : ℕ) (old : Buckets) (g : RowIndex) (answer : Answer RowIndex) : Type 0 where
  index : RowIndex
  runs : answer ≡ ok index
  holds : Holds k index
  len : index.len ≡ g.len + used old
  reads : (key : Bytes) → contents key index.buckets ≡ latest key old (contents key g.buckets)

move-step :
    (row : Row) (bs : Buckets) (g : RowIndex) {found : Bool} {idx : ℕ}
    → find_slot g row.key ≡ ok (found, idx)
    → move_rows (some row ∷ bs) g
      ≡ move_rows bs (record g { buckets = set g.buckets idx (some row); len = g.len + 1 })
unfolding move_rows
move-step row bs g h = rw h refl

count_up : (found : Bool) (n u l : ℕ) → n ≤ (if found then u else suc u) → u ≤ l → n ≤ l + 1
count_up true n u l h k = omega arith
count_up false n u l h k = omega arith

move-Moved :
    (k : ℕ) (old : Buckets) (g : RowIndex)
    → Holds k g
    → g.len + used old < 2 ^ k
    → Moved k old g (move_rows old g)
unfolding move_rows used latest
move-Moved k [] g h room = record {
  index = g;
  runs = refl;
  holds = h;
  len = omega arith;
  reads = λ key. refl;
}
move-Moved k (none ∷ bs) g h room =
    let m = move-Moved k bs g h room in
    record { index = m.index; runs = m.runs; holds = m.holds; len = m.len; reads = m.reads }
move-Moved k (some row ∷ bs) g h room =
    let fits : used g.buckets < 2 ^ k = omega (arith, h.counted) in
    let p = place_lem k g.buckets row h.table fits in
    let g' : RowIndex = record g { buckets = set g.buckets p.idx (some row); len = g.len + 1 } in
    let h' : Holds k g' = record {
      wide = h.wide;
      table = p.table;
      counted = count_up p.found _ _ _ p.counts h.counted;
      sized = h.sized;
    } in
    let m = move-Moved k bs g' h' (omega arith) in
    record {
      index = m.index;
      runs = move-step row bs g (find_slot_at k g row.key h.wide ∙ p.runs) ∙ m.runs;
      holds = m.holds;
      len = omega (arith, m.len);
      reads = λ key. m.reads key ∙ ap (latest key bs) (p.reads key);
    }

replicate-contents : (n : ℕ) (key : Bytes) → contents key (replicate n none) ≡ none
unfolding contents
replicate-contents zero key = refl
replicate-contents (suc n) key = replicate-contents n key

replicate-used : (n : ℕ) → used (replicate n none) ≡ 0
unfolding used
replicate-used zero = refl
replicate-used (suc n) = replicate-used n

abbrev blank : ℕ → RowIndex
blank k = record { buckets = replicate (2 ^ k) none; len = 0; cap = 2 ^ k }

blank-Holds : (k : ℕ) → 2 ^ k * row_size < u64 → Holds k (blank k)
blank-Holds k fits = record {
  wide = refl;
  sized = fits;
  table = record {
    width = length-replicate (2 ^ k) none;
    placed = λ i row s. absurd (vacant i row s);
    unique = λ i j row row' s s' e. absurd (vacant i row s);
  };
  counted = omega (arith, replicate-used (2 ^ k));
}
  where
    vacant : (i : ℕ) (row : Row) → slot (replicate (2 ^ k) none) i ≢ some row
    vacant i row =
        λ s. let e : slot (replicate (2 ^ k) none) i ≡ none = get_or-replicate (2 ^ k) i none in cc

-- The allocator grants every request.
pub record Generous (alloc : Allocator) : Type 0 where
  pub all_buckets : (cap : ℕ) → alloc.grants_buckets cap ≡ true
  pub all_copies : (row : Row) → alloc.grants_copy row ≡ true

-- Every request is granted, and the rows are so few that a table for them has a size within
-- `size_t`.
abbrev pub Serves : Allocator → ℕ → Type 0
Serves alloc n = Generous alloc × (n < 2 ^ 58)

-- The index has room for `n` rows, and holds the rows of `r`.
pub record IsGrown (r : RowIndex) (n : ℕ) (g : RowIndex) : Type 0 where
  pub k : ℕ
  pub holds : Holds k g
  pub roomy : n * 4 < g.cap * 3
  pub len : g.len ≤ r.len
  pub reads : (key : Bytes) → contents key g.buckets ≡ contents key r.buckets

Moved-IsGrown :
    (alloc : Allocator) (r : RowIndex) (n k : ℕ) {answer : Answer RowIndex}
    (m : Moved k r.buckets (blank k) answer)
    → n * 4 < 2 ^ k * 3
    → used r.buckets ≤ r.len
    → ((key : Bytes) → latest key r.buckets none ≡ contents key r.buckets)
    → Settles (Serves alloc n) (IsGrown r n) answer
Moved-IsGrown alloc r n k m room counted same = rw m.runs (
    given m.index (record {
      k = k;
      holds = m.holds;
      roomy = rw m.holds.wide room;
      len = omega (arith, m.len);
      reads = λ key.
          m.reads key ∙ ap (latest key r.buckets) (replicate-contents (2 ^ k) key) ∙ same key;
    }))

-- A new table, which the allocator may refuse.
new-Settles :
    (alloc : Allocator) (r : RowIndex) (n k : ℕ)
    → n * 4 < 2 ^ k * 3
    → (n < 2 ^ 58 → 2 ^ k * row_size < u64)
    → used r.buckets ≤ r.len
    → r.len < n
    → ((key : Bytes) → latest key r.buckets none ≡ contents key r.buckets)
    → Settles
        (Serves alloc n)
        (IsGrown r n)
        (allocate_buckets alloc (2 ^ k) >>= move_rows r.buckets)
unfolding allocate_buckets
new-Settles alloc r n k room sized counted lt same =
    elim (Bool-cases (ltb (2 ^ k * row_size) u64)) [
      | inr big ↦ rw big (refused (λ s. let fits = sized s.1 in absurd (ground arith)))
      | inl fits ↦ elim (Bool-cases (alloc.grants_buckets (2 ^ k))) [
        | inr denied ↦ rw (fits, denied) (refused (λ s. let all = s.0.all_buckets (2 ^ k) in cc))
        | inl granted ↦
            rw (fits, granted)
              (Moved-IsGrown alloc r n k
                (move-Moved k r.buckets (blank k) (blank-Holds k (ground arith)) (omega arith)) room
                counted same)
      ]
    ]

grow-Settles :
    (alloc : Allocator) (r : RowIndex) (n k : ℕ)
    → (if r.cap == 0 then 64 else r.cap) ≡ 2 ^ k
    → 2 ^ k * row_size < u64
    → used r.buckets ≤ r.len
    → r.len < n
    → n < 2 ^ 60
    → ((k' : ℕ) → 2 ^ k' ≡ r.cap → n * 4 < 2 ^ k' * 3 → IsGrown r n r)
    → ((key : Bytes) → latest key r.buckets none ≡ contents key r.buckets)
    → Settles (Serves alloc n) (IsGrown r n) (row_index_grow alloc r n)
unfolding row_index_grow
grow-Settles alloc r n k start fits counted lt few keep same =
    let (k', runs, room, least) =
      next_capacity_lem (n * 2 + 1) n k few (omega arith) (omega arith) in
    let fuel : n * 2 + 2 ≡ suc (n * 2 + 1) = omega arith in
    rw (start, fuel, runs)
      (elim (Bool-cases (2 ^ k' == r.cap)) [
        | inl e ↦ rw e (given r (keep k' ((==_iff (2 ^ k') r.cap).0 e) room))
        | inr e ↦ rw e (new-Settles alloc r n k' room (sized k' least) counted lt same)
      ])
  where
    sized : (k' : ℕ) → ((k' ≡ k) ⊎ (2 ^ k' * 3 ≤ n * 8)) → n < 2 ^ 58 → 2 ^ k' * row_size < u64
    sized k' (inl e) small = rw e fits
    sized k' (inr le) small = omega arith

-- The invariant of the index: nothing allocated yet, or a table filled up to three quarters.
pub data IsIndex (r : RowIndex) : Type 0 where
  fresh : r ≡ zero_index → IsIndex r
  filled : (k : ℕ) → Holds k r → r.len * 4 < r.cap * 3 → IsIndex r

filled-grow :
    (alloc : Allocator) (r : RowIndex) (n k : ℕ)
    → Holds k r
    → r.len < n
    → n < 2 ^ 60
    → Settles (Serves alloc n) (IsGrown r n) (row_index_grow alloc r n)
filled-grow alloc r n k h lt few =
    grow-Settles alloc r n k (ground (arith, h.wide, pow_pos k))
      (let wide = h.wide in let sized = h.sized in omega arith) h.counted lt few
      (λ k' e room. record {
        k = k;
        holds = h;
        roomy = rw (← e) room;
        len = omega arith;
        reads = λ key. refl;
      })
      (λ key. latest-contents k key r.buckets h.table)

fresh-grow :
    (alloc : Allocator) (n : ℕ)
    → 0 < n
    → n < 2 ^ 60
    → Settles (Serves alloc n) (IsGrown zero_index n) (row_index_grow alloc zero_index n)
unfolding used latest contents
fresh-grow alloc n lt few =
    grow-Settles alloc zero_index n 6 refl (omega arith) (omega arith) lt few
      (λ k' e room. absurd (omega (arith, pow_pos k'))) (λ key. refl)

pub grow_lem :
    (alloc : Allocator) (r : RowIndex) (n : ℕ)
    → IsIndex r
    → r.len < n
    → n < 2 ^ 60
    → Settles (Serves alloc n) (IsGrown r n) (row_index_grow alloc r n)
grow_lem alloc r n (fresh e) lt few =
    let pos : 0 < n = omega arith in rw e (fresh-grow alloc n pos few)
grow_lem alloc r n (filled k h room) lt few = filled-grow alloc r n k h lt few
