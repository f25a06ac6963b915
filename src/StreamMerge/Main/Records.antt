-- ===== src/StreamMerge/Main/Records.antt =====
-- applets/stream_merge/stream_merge.c: the records that the lines of a metadata file stand for.
use ws_pipeline_dispatcher.Prelude.{
  ℕ, ◌+◌, List, [], ◌∷◌, ◌++◌, ◌≡◌, refl, ap, ◌∙◌, inl, inr, Option, none, some, Option-cases,
  Bytes,
}
use ws_pipeline_dispatcher.StreamMerge.Records.{MetaRecord}
use ws_pipeline_dispatcher.StreamMerge.Fsm.Window.{Fits}
use ws_pipeline_dispatcher.StreamMerge.Session.{Input, chunk, idle, finish}
use ws_pipeline_dispatcher.StreamMerge.Session.Conserve.{AllFit}
use ws_pipeline_dispatcher.StreamMerge.Emit.{Env}
use ws_pipeline_dispatcher.StreamMerge.Drain.Refines.{data_record, inputs_of, put_input}
use ws_pipeline_dispatcher.StreamMerge.Drain.Batches.{data_record-IsRead}
use ws_pipeline_dispatcher.StreamMerge.Reader.Bounds.{IsRead-Fits}

-- The records that a session takes in.
abbrev pub chunk_records : List Input → List MetaRecord
chunk_records [] = []
chunk_records (chunk rec now_ms ∷ is) = rec ∷ chunk_records is
chunk_records (idle now_ms ∷ is) = chunk_records is
chunk_records (finish ∷ is) = chunk_records is

pub chunk_records-append :
    (a b : List Input) → chunk_records (a ++ b) ≡ chunk_records a ++ chunk_records b
chunk_records-append [] b = refl
chunk_records-append (chunk rec now_ms ∷ a) b = ap (λ r. rec ∷ r) (chunk_records-append a b)
chunk_records-append (idle now_ms ∷ a) b = chunk_records-append a b
chunk_records-append (finish ∷ a) b = chunk_records-append a b

module _ (env : Env) where
  -- The data records of lines, without those that are skipped.
  abbrev pub keep : Option MetaRecord → List MetaRecord → List MetaRecord
  keep none rest = rest
  keep (some rec) rest = rec ∷ rest

  abbrev pub data_records : List Bytes → List MetaRecord
  data_records [] = []
  data_records (line ∷ lines) = keep (data_record env line) (data_records lines)

  pub data_records-append :
      (a b : List Bytes) → data_records (a ++ b) ≡ data_records a ++ data_records b
  data_records-append [] b = refl
  data_records-append (line ∷ a) b =
      ap (keep (data_record env line)) (data_records-append a b)
      ∙ keep-append (data_record env line) (data_records a) (data_records b)
    where
      keep-append :
          (o : Option MetaRecord) (x y : List MetaRecord) → keep o (x ++ y) ≡ keep o x ++ y
      keep-append none x y = refl
      keep-append (some rec) x y = refl

  pub inputs_of_records :
      (lines : List Bytes) (ticks : ℕ)
      → chunk_records (inputs_of env lines ticks) ≡ data_records lines
  inputs_of_records [] ticks = refl
  inputs_of_records (line ∷ lines) ticks =
      put_records (data_record env line) ticks (inputs_of env lines) (data_records lines)
        (λ t. inputs_of_records lines t)
    where
      put_records :
          (o : Option MetaRecord) (ticks : ℕ) (more : ℕ → List Input) (rest : List MetaRecord)
          → ((t : ℕ) → chunk_records (more t) ≡ rest)
          → chunk_records (put_input env o ticks more) ≡ keep o rest
      put_records none ticks more rest h = h ticks
      put_records (some rec) ticks more rest h = ap (λ r. rec ∷ r) (h (ticks + 1))

  abbrev pub AllRecordsFit : List MetaRecord → Type 0
  AllRecordsFit [] = Unit
  AllRecordsFit (rec ∷ rs) = Fits rec × AllRecordsFit rs

  pub data_records-Fit : (lines : List Bytes) → AllRecordsFit (data_records lines)
  data_records-Fit [] = tt
  data_records-Fit (line ∷ lines) = elim (Option-cases (data_record env line)) [
    | inl e ↦ rw e (data_records-Fit lines)
    | inr found ↦
        let (rec, e) = found in
        let (text, read) = data_record-IsRead env line rec e in
        rw e (IsRead-Fits env.lib text rec read, data_records-Fit lines)
  ]

  -- Inputs whose chunks are data records of lines are within the bounds.
  pub fit_inputs : (is : List Input) → AllRecordsFit (chunk_records is) → AllFit is
  fit_inputs [] h = tt
  fit_inputs (chunk rec now_ms ∷ is) h = (h.0, fit_inputs is h.1)
  fit_inputs (idle now_ms ∷ is) h = fit_inputs is h
  fit_inputs (finish ∷ is) h = fit_inputs is h
