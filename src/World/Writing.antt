-- ===== src/World/Writing.antt =====
-- What a write leaves, which can be refused behind any byte.
use asset_resolver.Base.{
  ◌≡◌, ◌≢◌, refl, sym, ap, ◌∙◌, ◌⊎◌, inl, inr, ℕ, Text, txt, FilePath, Option, none, some, Bool,
  true, false, not, [], ◌∷◌, ◌++◌, if◌then◌else◌,
}
use mathlib.Core.List.{append_assoc, append-nil}
use asset_resolver.World.Fs.{file, put, parent_is_dir, node_is_dir}
use asset_resolver.World.Io.{
  World, Io, Answer, ok, err, panicked, ◌>>◌, pure, throw, fallible, next_fault, later_faults,
  set_fs, io_steps, create_file, write_byte, write_all, write,
}
use asset_resolver.World.Effects.{put-same, put-other}

-- Only this file is changed; it has the content, or the answer is an error.
abbrev pub Writes : {T : Type 0} → FilePath → Text → World T → Answer (Unit {0}) × World T → Type 0
Writes p content w r =
    ((q : FilePath) → q ≢ p → r.1.fs q ≡ w.fs q)
    × (r.1.now ≡ w.now)
    × (((r.0 ≡ ok tt) × (r.1.fs p ≡ file content r.1.now)) ⊎ ((e : Text) × (r.0 ≡ err e)))

module _ {T : Type 0} (p : FilePath) where
  refused :
      (content : Text) (w w' : World T) (e : Text)
      → w'.fs ≡ w.fs
      → w'.now ≡ w.now
      → Writes p content w (err e, w')
  refused content w w' e files clock = (λ q other. ap (λ fs. fs q) files, clock, inr (e, refl))

  putting :
      (content : Text) (w w' : World T)
      → w'.fs ≡ w.fs
      → w'.now ≡ w.now
      → Writes p content w (ok tt, set_fs (put w'.fs p (file content w'.now)) w')
  unfolding set_fs
  putting content w w' files clock = (
    λ q other. put-other w'.fs p q _ other ∙ ap (λ fs. fs q) files,
    clock,
    inl (refl, put-same w'.fs p _),
  )

  fault-Writes :
      (content : Text) (w w' : World T) (fault : Option Text) (m : Io T (Unit {0}))
      → w'.fs ≡ w.fs
      → w'.now ≡ w.now
      → Writes p content w (m w')
      → let step : Answer (Unit {0}) × World T = elim fault [
        | some e ↦ (err e, w')
        | none ↦ m w'
      ] in
        Writes p content w step
  fault-Writes content w w' none m files clock h = h
  fault-Writes content w w' (some e) m files clock h = refused content w w' e files clock

  either-Writes :
      (content : Text) (w : World T) (b : Bool) (r r' : Answer (Unit {0}) × World T)
      → Writes p content w r
      → Writes p content w r'
      → Writes p content w (if b then r else r')
  either-Writes content w true r r' h k = h
  either-Writes content w false r r' h k = k

  throw-Writes :
      (content : Text) (w w' : World T) (e : Text)
      → w'.fs ≡ w.fs
      → w'.now ≡ w.now
      → Writes p content w (throw e w')
  unfolding throw
  throw-Writes content w w' e files clock = refused content w w' e files clock

  create_file-Writes : (w : World T) → Writes p [] w (create_file p w)
  unfolding create_file fallible
  create_file-Writes w =
      let w' : World T = record w { faults = later_faults w.faults } in
      let missing = txt "No such file or directory (os error 2)" in
      let taken = txt "Is a directory (os error 21)" in
      let made : Answer (Unit {0}) × World T = (ok tt, set_fs (put w'.fs p (file [] w'.now)) w') in
      let free : Answer (Unit {0}) × World T =
        if node_is_dir (w'.fs p) then throw taken w' else made in
      fault-Writes [] w w' (next_fault w.faults)
        (λ w.
          if not (parent_is_dir w.fs p)
          then throw missing w
          else if node_is_dir (w.fs p)
          then throw taken w
          else (ok tt, set_fs (put w.fs p (file [] w.now)) w))
        refl refl
        (either-Writes [] w (not (parent_is_dir w'.fs p)) (throw missing w') free
          (throw-Writes [] w w' missing refl refl)
          (either-Writes [] w (node_is_dir (w'.fs p)) (throw taken w') made
            (throw-Writes [] w w' taken refl refl) (putting [] w w' refl refl)))

  write_byte-Writes :
      (done : Text) (b : ℕ) (w : World T) → Writes p (done ++ (b ∷ [])) w (write_byte p done b w)
  unfolding write_byte fallible
  write_byte-Writes done b w =
      let w' : World T = record w { faults = later_faults w.faults } in
      fault-Writes (done ++ (b ∷ [])) w w' (next_fault w.faults)
        (λ w. (ok tt, set_fs (put w.fs p (file (done ++ (b ∷ [])) w.now)) w)) refl refl
        (putting (done ++ (b ∷ [])) w w' refl refl)

  -- The rest of a write, behind a part of it
  onward :
      (part content : Text) (w : World T) (r r' : Answer (Unit {0}) × World T)
      → Writes p part w r
      → Writes p content r.1 r'
      → Writes p content w r'
  onward part content w r r' (others, clock, _) (others', clock', ends) =
      (λ q other. others' q other ∙ others q other, clock' ∙ clock, ends)

  then_answer :
      (part content : Text) (w u : World T) (r : Answer (Unit {0}) × World T) (k : Io T (Unit {0}))
      → Writes p part w r
      → ((v : World T) → v.fs p ≡ file part v.now → Writes p content v (k v))
      → Writes p content w (◌>>◌ (λ _. r) k u)
  unfolding io_steps
  then_answer part content w u (ok tt, v) k h next = elim h.2 [
    | inl held ↦ onward part content w (ok tt, v) (k v) h (next v held.1)
    | inr failed ↦ absurd (cc (failed.1))
  ]
  then_answer part content w u (err e, v) k h next = (h.0, h.1, inr (e, refl))
  then_answer part content w u (panicked, v) k h next = elim h.2 [
    | inl held ↦ absurd (cc (held.0))
    | inr failed ↦ absurd (cc (failed.1))
  ]

  then-Writes :
      (part content : Text) (w : World T) (m k : Io T (Unit {0}))
      → Writes p part w (m w)
      → ((v : World T) → v.fs p ≡ file part v.now → Writes p content v (k v))
      → Writes p content w ((m >> k) w)
  unfolding io_steps
  then-Writes part content w m k h next = then_answer part content w w (m w) k h next

  write_all-Writes :
      (done bs : Text) (w : World T)
      → w.fs p ≡ file done w.now
      → Writes p (done ++ bs) w (write_all p done bs w)
  unfolding write_all pure
  write_all-Writes done [] w held =
      (λ q other. refl, refl, inl (refl, held ∙ ap (λ x. file x w.now) (sym (append-nil done))))
  write_all-Writes done (b ∷ bs) w held =
      then-Writes (done ++ (b ∷ [])) (done ++ (b ∷ bs)) w (write_byte p done b)
        (write_all p (done ++ (b ∷ [])) bs) (write_byte-Writes done b w)
        (λ v there.
          rw (← append_assoc done (b ∷ []) bs) (write_all-Writes (done ++ (b ∷ [])) bs v there))

  -- A write changes no other file; it leaves the content, or answers with an error.
  pub write-Writes : (content : Text) (w : World T) → Writes p content w (write p content w)
  unfolding write
  write-Writes content w =
      then-Writes [] content w (create_file p) (write_all p [] content) (create_file-Writes w)
        (write_all-Writes [] content)
