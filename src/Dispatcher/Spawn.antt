-- ===== src/Dispatcher/Spawn.antt =====
-- applets/pipeline_dispatcher/pd_spawn.c: what a child has at its file descriptors when it calls
-- `execv`.
use ws_pipeline_dispatcher.Prelude.{
  ℕ, Bool, false, ◌||◌, List, [], ◌∷◌, ◌≡◌, ◌≢◌, refl, ◌∙◌, ap, arith, Option, none, some, ◌>>=◌,
  ◌==◌, if◌then◌else◌, Bool-cases, inl, inr,
}

-- A table of open files: a descriptor has the number of an open file, or is closed.
abbrev pub FdTable : Type 0
FdTable = ℕ → Option ℕ

-- `dup2(from, to)`; it fails where `from` is closed.
unfoldable pub put_file : Option ℕ → FdTable → ℕ → Option FdTable
put_file none fds to = none
put_file (some file) fds to = some (λ fd. if fd == to then some file else fds fd)

unfoldable pub dup2 : FdTable → ℕ → ℕ → Option FdTable
dup2 fds from to = put_file (fds from) fds to

-- The loop over `close_fds`; a -1 in it is left out of the list.
unfoldable pub close_all : FdTable → List ℕ → FdTable
close_all fds [] = fds
close_all fds (fd ∷ rest) = close_all (λ other. if other == fd then none else fds other) rest

-- The child's part of `pd_spawn_child`, up to `execv`; `none` is `_exit(126)`.
unfoldable pub child_fds : FdTable → ℕ → ℕ → List ℕ → Option FdTable
child_fds fds stdin_fd stdout_fd close_fds = do
  with_in ← if stdin_fd == 0 then some fds else dup2 fds stdin_fd 0
  with_out ← if stdout_fd == 1 then some with_in else dup2 with_in stdout_fd 1
  some (close_all with_out close_fds)

-- The descriptor is in the list.
abbrev pub listed : ℕ → List ℕ → Bool
listed fd [] = false
listed fd (x ∷ xs) = fd == x || listed fd xs

close_all_lem :
    (close_fds : List ℕ) (fds : FdTable) (fd : ℕ)
    → close_all fds close_fds fd ≡ (if listed fd close_fds then none else fds fd)
unfolding close_all
close_all_lem [] fds fd = refl
close_all_lem (x ∷ rest) fds fd =
    close_all_lem rest (λ other. if other == x then none else fds other) fd ∙ ground arith

dup2_lem :
    (fds : FdTable) (from to file : ℕ)
    → fds from ≡ some file
    → dup2 fds from to ≡ some (λ fd. if fd == to then some file else fds fd)
unfolding dup2 put_file
dup2_lem fds from to file h = ap (λ o. put_file o fds to) h

-- The table of the child, with the files `input` and `output` at its ends.
abbrev pub wired : FdTable → ℕ → ℕ → List ℕ → FdTable
wired fds input output close_fds = λ fd.
    if listed fd close_fds
    then none
    else if fd == 1
    then some output
    else if fd == 0
    then some input
    else fds fd

dup_to :
    (fds : FdTable) (from to file : ℕ)
    → fds from ≡ some file
    → (t : FdTable) × ((if from == to then some fds else dup2 fds from to) ≡ some t)
      × ((fd : ℕ) → t fd ≡ (if fd == to then some file else fds fd))
dup_to fds from to file h = elim (Bool-cases (from == to)) [
  | inl e ↦ (fds, rw e refl, λ fd. ground (arith, h))
  | inr e ↦ (_, rw e (dup2_lem fds from to file h), λ fd. refl)
]

-- If the standard input and output of a child are open and its output is not descriptor 0, the
-- child starts with every listed descriptor closed, and of the others 0 is the input, 1 the
-- output, and the rest are as in the parent.
pub child_fds_lem :
    (fds : FdTable) (stdin_fd stdout_fd input output : ℕ) (close_fds : List ℕ)
    → fds stdin_fd ≡ some input
    → fds stdout_fd ≡ some output
    → stdout_fd ≢ 0
    → (t : FdTable) × (child_fds fds stdin_fd stdout_fd close_fds ≡ some t)
      × ((fd : ℕ) → t fd ≡ wired fds input output close_fds fd)
unfolding child_fds
child_fds_lem fds stdin_fd stdout_fd input output close_fds i o n =
    let (t1, e1, at1) = dup_to fds stdin_fd 0 input i in
    let here : (stdout_fd == 0) ≡ false = ground arith in
    let o1 : t1 stdout_fd ≡ some output = at1 stdout_fd ∙ (rw here o) in
    let (t2, e2, at2) = dup_to t1 stdout_fd 1 output o1 in
    (
      close_all t2 close_fds,
      rw (e1, e2) refl,
      λ fd.
          close_all_lem close_fds t2 fd
          ∙ ap (λ f. if listed fd close_fds then none else f)
              (at2 fd ∙ ap (λ f. if fd == 1 then some output else f) (at1 fd)),
    )
