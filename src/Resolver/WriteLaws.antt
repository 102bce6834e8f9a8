-- ===== src/Resolver/WriteLaws.antt =====
-- src/casc_resolver.rs, write_to_path: the destination changes in one step.
use asset_resolver.Base.{
  ℕ, ◌+◌, ◌%◌, ◌≡◌, ◌≢◌, refl, ap, ◌∙◌, ◌⊎◌, inl, inr, arith, Text, txt, FilePath, normal, path,
  parent, display, [], ◌∷◌, ◌++◌, IsSlashFree, length-append, ok_or,
}
use asset_resolver.Base
use asset_resolver.World.Fs.{Node, absent, file, put}
use asset_resolver.World.Io.{
  World, Io, Answer, ok, err, write, rename, remove_file, create_dir_all, lift, map_err, ◌>>◌,
}
use asset_resolver.World.Chains.{
  >>=-ok, >>=-err, >>-bind, map_err-ok, map_err-err, gets_step, lift_ok_step, attempt-ok,
  attempt-err, pure_step, throw_step,
}
use asset_resolver.World.Writing.{write-Writes}
use asset_resolver.World.Effects.{
  rename-Does, remove_file-Does, create_dir_all-Keeps, put-same, put-other,
}
use asset_resolver.Resolver.Extract.{write_to_path, rename_over, after_rename, next_serial}
use asset_resolver.Resolver.TemporaryPath.{temporary_path-fresh, parent_lem, file_name_lem}

-- The step leaves `n` at a path, or fails and leaves there what was there.
abbrev pub Replaces :
    {T : Type 0} → FilePath → Node → World T → Answer (Unit {0}) × World T → Type 0
Replaces p n w r =
    ((r.0 ≡ ok tt) × (r.1.fs p ≡ n)) ⊎ ((e : Text) × (r.0 ≡ err e) × (r.1.fs p ≡ w.fs p))

module _ {T : Type 0} where
  next_serial_step :
      (w : World T)
      → next_serial w ≡ (
        ok w.next_temporary,
        record w { next_temporary = (w.next_temporary + 1) % 18446744073709551616 },
      )
  unfolding next_serial
  next_serial_step w = refl

  along :
      (p : FilePath) (n : Node) (w : World T) {r r' : Answer (Unit {0}) × World T}
      → r ≡ r'
      → Replaces p n w r'
      → Replaces p n w r
  along p n w e h = rw e h

  moved_back :
      (p : FilePath) (n : Node) (w w' : World T) (r : Answer (Unit {0}) × World T)
      → w'.fs p ≡ w.fs p
      → Replaces p n w' r
      → Replaces p n w r
  moved_back p n w w' r h (inl good) = inl good
  moved_back p n w w' r h (inr (e, bad, kept)) = inr (e, bad, kept ∙ h)

  failed_rename :
      (temporary out : FilePath) (n : Node) (e : Text) (w : World T)
      → out ≢ temporary
      → Replaces out n w (after_rename temporary out (Base.err e) w)
  unfolding after_rename
  failed_rename temporary out n e w other = elim (remove_file-Does temporary w) [
    | inl (good, gone) ↦
        along out n w
          (>>=-ok _ _ (attempt-ok _ (ap (λ a. (a, (remove_file temporary w).1)) good))
            ∙ throw_step _ _)
          (inr (_, refl, ap (λ fs. fs out) gone ∙ put-other w.fs temporary out absent other))
    | inr (e', bad, kept) ↦
        along out n w
          (>>=-ok _ _ (attempt-err _ (ap (λ a. (a, (remove_file temporary w).1)) bad))
            ∙ throw_step _ _)
          (inr (_, refl, ap (λ fs. fs out) kept))
  ]

  after_rename_ok :
      (temporary out : FilePath) (w : World T)
      → after_rename temporary out (Base.ok tt) w ≡ (ok tt, w)
  unfolding after_rename
  after_rename_ok temporary out w = pure_step tt w

  rename_over-Replaces :
      (temporary out : FilePath) (content : Text) (t : ℕ) (w : World T)
      → w.fs temporary ≡ file content t
      → out ≢ temporary
      → Replaces out (file content t) w (rename_over temporary out w)
  unfolding rename_over
  rename_over-Replaces temporary out content t w there other =
      elim (rename-Does temporary out content t w there) [
        | inl (good, now) ↦
            along out _ w
              (>>=-ok _ _ (attempt-ok _ (ap (λ a. (a, (rename temporary out w).1)) good))
                ∙ after_rename_ok temporary out _)
              (inl (
                refl,
                ap (λ fs. fs out) now ∙ put-same (put w.fs temporary absent) out (file content t),
              ))
        | inr (e, bad, kept) ↦
            along out _ w
              (>>=-ok _ _ (attempt-err _ (ap (λ a. (a, (rename temporary out w).1)) bad)))
              (moved_back out _ w (rename temporary out w).1
                (after_rename temporary out (Base.err e) (rename temporary out w).1)
                (ap (λ fs. fs out) kept) (failed_rename temporary out _ e _ other))
      ]

  write_then_rename :
      (f : Text → Text) (temporary out : FilePath) (content : Text) (w : World T)
      → out ≢ temporary
      → Replaces out
          (file content w.now)
          w
          ((map_err f (write temporary content) >> rename_over temporary out) w)
  write_then_rename f temporary out content w other =
      let r = write temporary content w in
      let (others, clock, ends) = write-Writes temporary content w in
      elim ends [
        | inl (good, held) ↦
            along out _ w (>>-bind _ _ _ ∙ >>=-ok _ _ (map_err-ok f _ (ap (λ a. (a, r.1)) good))) (
              moved_back out _ w r.1 (rename_over temporary out r.1) (others out other) (
                rename_over-Replaces temporary out content w.now r.1
                  (held ∙ ap (file content) clock) other))
        | inr (e, bad) ↦
            along out _ w (>>-bind _ _ _ ∙ >>=-err _ _ (map_err-err f _ (ap (λ a. (a, r.1)) bad)))
              (inr (f e, refl, others out other))
      ]

  at_clock :
      (p : FilePath) (content : Text) (t : ℕ) (w : World T) (r : Answer (Unit {0}) × World T)
      → w.now ≡ t
      → Replaces p (file content w.now) w r
      → Replaces p (file content t) w r
  at_clock p content t w r h (inl (good, now)) = inl (good, now ∙ ap (file content) h)
  at_clock p content t w r h (inr bad) = inr bad

  write_then_rename_at :
      (f : Text → Text) (temporary out : FilePath) (content : Text) (t : ℕ) (w : World T)
      → w.now ≡ t
      → out ≢ temporary
      → Replaces out
          (file content t)
          w
          ((map_err f (write temporary content) >> rename_over temporary out) w)
  write_then_rename_at f temporary out content t w h other =
      at_clock out content t w
        ((map_err f (write temporary content) >> rename_over temporary out) w) h
        (write_then_rename f temporary out content w other)

  made_then_write :
      (dir : FilePath) (name content : Text) (f : Text → Text) (w : World T) (k : Io T (Unit {0}))
      → let out = dir ++ (normal name ∷ []) in
        ((w' : World T) → w'.now ≡ w.now → Replaces out (file content w.now) w' (k w'))
        → Replaces out (file content w.now) w ((map_err f (create_dir_all dir) >> k) w)
  made_then_write dir name content f w k next =
      let out = dir ++ (normal name ∷ []) in
      let made = create_dir_all dir w in
      let (answer, kept, clock) =
        create_dir_all-Keeps dir out w (omega (arith, length-append dir (normal name ∷ []))) in
      elim answer [
        | inl good ↦
            along out _ w (>>-bind _ _ _ ∙ >>=-ok _ _ (map_err-ok f _ (ap (λ a. (a, made.1)) good)))
              (moved_back out _ w made.1 (k made.1) kept (next made.1 clock))
        | inr (e, bad) ↦
            along out _ w
              (>>-bind _ _ _ ∙ >>=-err _ _ (map_err-err f _ (ap (λ a. (a, made.1)) bad)))
              (inr (f e, refl, kept))
      ]

  -- Writing an extracted file to a path with a parent directory and a file name either succeeds, and
  -- the path then holds exactly the new bytes, or it fails with an error and what the path held is
  -- untouched, though a write that is refused can leave a part of the bytes in its file.
  pub write_to_path-Replaces :
      (dir : FilePath) (name content : Text) (w : World T)
      → IsSlashFree name
      → let out = dir ++ (normal name ∷ []) in
        Replaces out (file content w.now) w (write_to_path out content w)
  unfolding write_to_path
  write_to_path-Replaces dir name content w h =
      let out = dir ++ (normal name ∷ []) in
      along out _ w
        (>>=-ok _ _ (
          ap (λ o. lift (ok_or (txt "missing parent for " ++ display out) o) w)
            (parent_lem dir name)
          ∙ lift_ok_step dir w))
        (made_then_write dir name content _ w _ (λ w' t.
          along out _ w'
            (>>=-ok _ _ (
                ap (λ o. lift (ok_or (txt "missing file name in " ++ display out) o) w')
                  (file_name_lem dir name)
                ∙ lift_ok_step name w')
              ∙ >>=-ok _ _ (next_serial_step w')
              ∙ >>=-ok _ _ (gets_step _ _))
            (write_then_rename_at _ _ out content w.now _ t (temporary_path-fresh dir name _ _ h))))
