-- ===== src/ListfileCache/Community/Writable.antt =====
-- src/listfile_cache.rs: what is left of the files when a community cache is opened for writing.
use asset_resolver.Base.{
  txt, ◌++◌, ℕ, ◌≡◌, ◌≢◌, refl, sym, ◌∙◌, ap, ◌⊎◌, inl, inr, Text, FilePath, display, parent,
  Option, none, some, Bool, true, false, List, Result, list_eq, nat_eq, ◌==◌, eq→≡, Bool-cases, not,
  if◌then◌else◌, arith,
}
use asset_resolver.Base
use asset_resolver.World.Fs.{file}
use asset_resolver.World.Io.{World, ok, io_steps, create_dir_all, ◌>>=◌, lift, map_err}
use asset_resolver.World.Chains.{pure_step}
use asset_resolver.World.Laws.{lift-IsReader}
use asset_resolver.World.Directories.{parent-length, create_dir_all-file, map_err-world}
use asset_resolver.World.Effects.{create_dir_all-Keeps}
use asset_resolver.World.Inversion.{>>=-next, map_err-eq-ok, lift-eq-ok}
use asset_resolver.ListfileCache.{open_node, write_busy_timeout, statement, open_writable_cache}
use asset_resolver.ListfileCache.StatementLaws.{statement-eq-ok, statement-other}
use asset_resolver.ListfileCache.Sql.{Database}
use asset_resolver.ListfileCache.Community.{create_parent}

module _ {T : Type 0} (d : Database) (p source : FilePath) (other : source ≢ p) where
  -- The creation of the parent, by what the parent is
  pub create_parent-path :
      (above : Option FilePath) (w : World T)
      → parent p ≡ above
      → (create_parent above w).1.fs p ≡ w.fs p
  unfolding create_parent
  create_parent-path none w h = ap (λ r. r.1.fs p) (pure_step tt w)
  create_parent-path (some a) w h =
      let (_, kept, _) = create_dir_all-Keeps a p w (parent-length p a h) in
      ap (λ v. v.fs p) (map_err-world _ (create_dir_all a) w) ∙ kept

  pub create_parent-file :
      (content : Text) (t : ℕ) (above : Option FilePath) (w : World T)
      → w.fs source ≡ file content t
      → (create_parent above w).1.fs source ≡ file content t
  unfolding create_parent
  create_parent-file content t none w there = ap (λ r. r.1.fs source) (pure_step tt w) ∙ there
  create_parent-file content t (some a) w there =
      ap (λ v. v.fs source) (map_err-world _ (create_dir_all a) w)
      ∙ create_dir_all-file source content t a w there

  pub open_writable_steps :
      (w : World T)
      → open_writable_cache d p w
        ≡ (statement d p (txt "open " ++ display p) (open_node d (w.fs p)) >>= λ conn.
              map_err
                (λ e. txt "set busy timeout on " ++ (display p ++ (txt ": " ++ e)))
                (lift (Database.set_busy_timeout d conn write_busy_timeout)))
            w
  unfolding open_writable_cache io_steps
  open_writable_steps w = refl

  pub open_writable-eq-ok :
      (ready : Database.Connection d) (w : World T)
      → (open_writable_cache d p w).0 ≡ ok ready
      → ((opened : Database.Connection d) × (open_node d (w.fs p) ≡ Base.ok opened)
          × (Database.set_busy_timeout d opened write_busy_timeout ≡ Base.ok ready))
        × ((open_writable_cache d p w).1.fs source ≡ w.fs source)
  open_writable-eq-ok ready w h =
      let (opened, first, rest, same) =
        >>=-next _ _ w ready (ap (λ r. r.0) (sym (open_writable_steps w)) ∙ h) in
      (
        (
          opened,
          statement-eq-ok d p _ _ w opened first,
          lift-eq-ok _ _ ready (map_err-eq-ok _ _ _ ready rest),
        ),
        ap (λ r. r.1.fs source) (open_writable_steps w ∙ same)
            ∙ ap (λ v. v.fs source) (map_err-world _ (lift _) _)
            ∙ ap (λ fs. fs source) ((lift-IsReader _).at _).fs
            ∙ statement-other d p source other _ _ w,
      )
