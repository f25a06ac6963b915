-- ===== src/LogParse/Main/Trim.antt =====
-- applets/log_parse/log_parse.c, `trim_line`: what is left of a line.
use ws_pipeline_dispatcher.Prelude.{
  ℕ, true, false, [], ◌∷◌, ◌++◌, ◌≡◌, refl, ap, ◌∙◌, inl, inr, Bool-cases, Bytes,
}
use ws_pipeline_dispatcher.Json.{is_space}
use ws_pipeline_dispatcher.LogParse.Main.Lines.{put_trimmed, trim_start, trim_end, trim_line}

-- White space only.
abbrev pub AllSpaces : Bytes → Type 0
AllSpaces [] = Unit
AllSpaces (c ∷ s) = (is_space c ≡ true) × AllSpaces s

-- The first byte, if there is one, is no white space.
abbrev pub StartsBare : Bytes → Type 0
StartsBare [] = Unit
StartsBare (c ∷ s) = is_space c ≡ false

-- And the last.
abbrev pub EndsBare : Bytes → Type 0
EndsBare [] = Unit
EndsBare (c ∷ []) = is_space c ≡ false
EndsBare (c ∷ d ∷ s) = EndsBare (d ∷ s)

-- The line is the text between white space, of which the text has none at its ends.
pub record Trims (line text : Bytes) : Type 0 where
  pub front : Bytes
  pub back : Bytes
  pub split : line ≡ front ++ (text ++ back)
  pub front_spaces : AllSpaces front
  pub back_spaces : AllSpaces back
  pub starts : StartsBare text
  pub ends : EndsBare text

-- White space in front of the rest.
record Starts (s rest : Bytes) : Type 0 where
  front : Bytes
  split : s ≡ front ++ rest
  spaces : AllSpaces front
  bare : StartsBare rest

trim_start-Starts : (s : Bytes) → Starts s (trim_start s)
unfolding trim_start
trim_start-Starts [] = record { front = []; split = refl; spaces = tt; bare = tt }
trim_start-Starts (c ∷ s) = elim (Bool-cases (is_space c)) [
  | inl e ↦
      let h = trim_start-Starts s in
      rw e (record {
        front = c ∷ h.front;
        split = ap (λ r. c ∷ r) h.split;
        spaces = (e, h.spaces);
        bare = h.bare;
      })
  | inr e ↦ rw e (record { front = []; split = refl; spaces = tt; bare = e })
]

-- White space behind the rest, which starts as the text does.
record Ends (s rest : Bytes) : Type 0 where
  back : Bytes
  split : s ≡ rest ++ back
  spaces : AllSpaces back
  bare : EndsBare rest
  starts : StartsBare s → StartsBare rest

put_trimmed-Ends : (c : ℕ) (s rest : Bytes) → Ends s rest → Ends (c ∷ s) (put_trimmed c rest)
put_trimmed-Ends c s [] h = elim (Bool-cases (is_space c)) [
  | inl e ↦ rw e (record {
    back = c ∷ h.back;
    split = ap (λ r. c ∷ r) h.split;
    spaces = (e, h.spaces);
    bare = tt;
    starts = λ b. tt;
  })
  | inr e ↦ rw e (record {
    back = h.back;
    split = ap (λ r. c ∷ r) h.split;
    spaces = h.spaces;
    bare = e;
    starts = λ b. e;
  })
]
put_trimmed-Ends c s (d ∷ rest) h = record {
  back = h.back;
  split = ap (λ r. c ∷ r) h.split;
  spaces = h.spaces;
  bare = h.bare;
  starts = λ b. b;
}

trim_end-Ends : (s : Bytes) → Ends s (trim_end s)
unfolding trim_end
trim_end-Ends [] = record { back = []; split = refl; spaces = tt; bare = tt; starts = λ b. tt }
trim_end-Ends (c ∷ s) = put_trimmed-Ends c s (trim_end s) (trim_end-Ends s)

pub trim_line-Trims : (line : Bytes) → Trims line (trim_line line)
unfolding trim_line
trim_line-Trims line =
    let a = trim_start-Starts line in
    let b = trim_end-Ends (trim_start line) in
    record {
      front = a.front;
      back = b.back;
      split = a.split ∙ ap (λ r. a.front ++ r) b.split;
      front_spaces = a.spaces;
      back_spaces = b.spaces;
      starts = b.starts a.bare;
      ends = b.bare;
    }
