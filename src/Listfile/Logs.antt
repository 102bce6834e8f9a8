-- ===== src/Listfile/Logs.antt =====
-- src/listfile.rs: which errors of the community listfile are told.
use asset_resolver.Base.{
  ◌≡◌, refl, sym, ◌∙◌, ap, arith, Text, txt, starts_with, Option, none, some, Bool, not, List, [],
  ◌∷◌, ◌++◌, ◌||◌, find, if◌then◌else◌, Bool-cases, inl, inr,
}
use mathlib.Core.List.{append-nil, append_assoc}
use asset_resolver.World.Io.{World, io_steps}
use asset_resolver.ListfileCache.Sql.{Database}
use asset_resolver.Listfile.{Listfile, update, log_community_error_once}

module _ (d : Database) where
  -- The world behind some failures, in their order.
  unfoldable pub log_all : List Text → World (Listfile d) → World (Listfile d)
  log_all [] w = w
  log_all (e ∷ es) w = log_all es (log_community_error_once d e w).1

-- The line of the first error that is not of a missing listfile.
abbrev first_line : Option Text → List Text
first_line none = []
first_line (some e) =
    (txt "Community listfile unavailable; using local listfile cache only: " ++ e) ∷ []

-- The lines that the errors add to the log, where one may have been told before.
unfoldable pub told : Bool → List Text → List Text
told logged errors =
    if logged then [] else first_line (find (λ e. not (starts_with e (txt "missing "))) errors)

told_nil : (logged : Bool) → told logged [] ≡ []
unfolding told
told_nil logged = ground arith

told_cons :
    (logged : Bool) (e : Text) (es : List Text)
    → told logged (e ∷ []) ++ told (logged || not (starts_with e (txt "missing "))) es
      ≡ told logged (e ∷ es)
unfolding told
told_cons logged e es = ground arith

module _ (d : Database) where
  -- What one failure does to the log and to the flag
  log_step :
      (e : Text) (w : World (Listfile d))
      → ((log_community_error_once d e w).1.log
          ≡ w.log ++ told w.statics.community_error_logged (e ∷ []))
        × ((log_community_error_once d e w).1.statics.community_error_logged
            ≡ (w.statics.community_error_logged || not (starts_with e (txt "missing "))))
  unfolding log_community_error_once update io_steps told
  log_step e w = elim (Bool-cases (starts_with e (txt "missing "))) [
    | inl missing ↦ (
      rw (missing, log_community_error_once) (ground (arith, append-nil w.log)),
      rw (missing, log_community_error_once) (ground arith),
    )
    | inr other ↦ elim (Bool-cases w.statics.community_error_logged) [
      | inl logged ↦ (
        rw (other, logged, log_community_error_once) (sym (append-nil w.log)),
        rw (other, logged, log_community_error_once) refl,
      )
      | inr first ↦ (
        rw (other, first, log_community_error_once) refl,
        rw (other, first, log_community_error_once) refl,
      )
    ]
  ]

  -- However many failures the community listfile has, the log has one line more at most: that of the
  -- first error that does not tell of a missing listfile, and only if none was told before.
  pub log_all-told :
      (errors : List Text) (w : World (Listfile d))
      → (log_all d errors w).log ≡ w.log ++ told w.statics.community_error_logged errors
  unfolding log_all
  log_all-told [] w = rw told_nil (sym (append-nil w.log))
  log_all-told (e ∷ errors) w =
      let (line, flag) = log_step e w in
      log_all-told errors (log_community_error_once d e w).1
      ∙ rw (line, flag, append_assoc)
          (ap (λ t. w.log ++ t) (told_cons w.statics.community_error_logged e errors))
