-- ===== src/CascCache/PublishLaws.antt =====
-- src/casc_cache.rs: a namespace is published whole, and only when it is complete.
use asset_resolver.Base.{
  ◌≡◌, ◌≢◌, refl, sym, ap, ◌∙◌, inl, inr, Text, txt, FilePath, normal, path, join, join-IsPlain,
  IsPlain, strip_prefix, strip_prefix-append, display, component_eq, eq_refl, same_list_iff, none,
  Bool, Bool-cases, true, false, not, [], ◌∷◌, ◌++◌, ◌==◌, list_eq, nat_eq, if◌then◌else◌,
}
use asset_resolver.World.Fs.{FileSystem, dir, node_exists, moved, removed}
use asset_resolver.World.Io.{
  World, Io, Answer, ok, err, panicked, pure, throw, map_err, rename, remove_dir_all, io_steps,
}
use asset_resolver.World.Chains.{>>=-ok, pure_step, exists_step}
use asset_resolver.World.Inversion.{>>=-next, >>-next, map_err-eq-ok, node_mtime}
use asset_resolver.World.Effects.{rename-Does_dir, remove_dir_all-Does}
use asset_resolver.Casc.{Cascette}
use asset_resolver.Sqlite.{Sqlite}
use asset_resolver.CascCache.{resolution_cache_is_fresh}
use asset_resolver.CascCache.Publish.{publish_complete_namespace}
use asset_resolver.CascCache.Fresh.{
  IsFresh, resolution_cache_is_fresh-eq-true, resolution_cache_is_fresh-IsReader,
}

sibling_not_below :
    (d : FilePath) (a b : Text) (x : FilePath)
    → a ≢ b
    → strip_prefix ((d ++ (normal b ∷ [])) ++ x) (d ++ (normal a ∷ [])) ≡ none
unfolding strip_prefix
sibling_not_below [] a b x h = elim (Bool-cases (b == a)) [
  | inl same ↦ absurd (h (sym ((same_list_iff b a).0 same)))
  | inr other ↦ rw other refl
]
sibling_not_below (c ∷ d) a b x h = rw (eq_refl c) (sibling_not_below d a b x h)

-- What the move leaves below its target is what lay below its source.
moved_below : (fs : FileSystem) (src dst x : FilePath) → moved fs src dst (dst ++ x) ≡ fs (src ++ x)
unfolding moved
moved_below fs src dst x = rw (moved, strip_prefix-append dst x) refl

pub removed_beside :
    (fs : FileSystem) (d : FilePath) (a b : Text) (x : FilePath)
    → a ≢ b
    → removed fs (d ++ (normal a ∷ [])) ((d ++ (normal b ∷ [])) ++ x)
      ≡ fs ((d ++ (normal b ∷ [])) ++ x)
unfolding removed
removed_beside fs d a b x h = rw (removed, sibling_not_below d a b x h) refl

-- The part of a namespace that its freshness reads.
abbrev pub SameBelow : FileSystem → FilePath → FileSystem → FilePath → Type 0
SameBelow fs casc_dir fs' staging = (x : FilePath) → fs (casc_dir ++ x) ≡ fs' (staging ++ x)

same_at :
    (fs fs' : FileSystem) (casc_dir staging p : FilePath)
    → SameBelow fs casc_dir fs' staging
    → IsPlain p
    → fs (join casc_dir p) ≡ fs' (join staging p)
same_at fs fs' casc_dir staging p same h =
    rw (join-IsPlain casc_dir p h, join-IsPlain staging p h) (same p)

module _ (c : Cascette) (q : Sqlite) where
  pub moved-IsFresh :
      (fs fs' : FileSystem) (casc_dir staging : FilePath)
      → SameBelow fs casc_dir fs' staging
      → IsFresh c q fs' staging
      → IsFresh c q fs casc_dir
  unfolding path txt
  moved-IsFresh fs fs' casc_dir staging same h =
      let at = λ (p : FilePath) (plain : IsPlain p). same_at fs fs' casc_dir staging p same plain in
      record {
        content = h.content;
        root_mtime = h.root_mtime;
        enc_mtime = h.enc_mtime;
        changed = h.changed;
        is_cached = at (path (txt "resolution.sqlite")) (refl, tt) ∙ h.is_cached;
        no_journal =
            ap node_exists (at (path (txt "resolution.sqlite-journal")) (refl, tt)) ∙ h.no_journal;
        no_wal = ap node_exists (at (path (txt "resolution.sqlite-wal")) (refl, tt)) ∙ h.no_wal;
        root_time = ap node_mtime (at (path (txt "root.bin")) (refl, tt)) ∙ h.root_time;
        enc_time = ap node_mtime (at (path (txt "encoding.bin")) (refl, tt)) ∙ h.enc_time;
        metadata = h.metadata;
      }

  checked :
      {T : Type 0} (fresh : Bool) (e : Text) (k : Io T (Unit {0})) (w : World T)
      → ((if not fresh then throw e else k) w).0 ≡ ok tt
      → (fresh ≡ true) × ((if not fresh then throw e else k) w ≡ k w)
  unfolding throw
  checked true e k w h = (refl, refl)
  checked false e k w h = absurd (cc h)

  map_err_answer :
      {T : Type 0} (r : Answer (Unit {0})) (w' : World T) (f : Text → Text) (w : World T)
      (at : FilePath)
      → (map_err f (λ _. (r, w')) w).1.fs at ≡ w'.fs at
  unfolding io_steps
  map_err_answer (ok x) w' f w at = refl
  map_err_answer (err e) w' f w at = refl
  map_err_answer panicked w' f w at = refl

  map_err_kept :
      {T : Type 0} (f : Text → Text) (m : Io T (Unit {0})) (w : World T) (at : FilePath)
      → (map_err f m w).1.fs at ≡ (m w).1.fs at
  unfolding io_steps
  map_err_kept f m w at = map_err_answer (m w).0 (m w).1 f w at

  -- The way is free: what lies below a sibling is as before.
  made_room :
      {T : Type 0} (old : Bool) (f : Text → Text) (d : FilePath) (a b : Text) (w : World T)
      → a ≢ b
      → let w' =
          ((if old then map_err f (remove_dir_all (d ++ (normal a ∷ []))) else pure tt) w).1 in
        SameBelow w'.fs (d ++ (normal b ∷ [])) w.fs (d ++ (normal b ∷ []))
  made_room true f d a b w h x =
      let gone = remove_dir_all-Does (d ++ (normal a ∷ [])) w in
      let at = (d ++ (normal b ∷ [])) ++ x in
      map_err_kept f _ w at ∙ elim gone [
        | inl (_, now) ↦ ap (λ fs. fs at) now ∙ removed_beside w.fs d a b x h
        | inr (e, _, now) ↦ ap (λ fs. fs at) now
      ]
  made_room false f d a b w h x = ap (λ r. r.1.fs ((d ++ (normal b ∷ [])) ++ x)) (pure_step tt w)

  -- A rename that succeeded leaves below its target what lay below its source.
  moves_dir :
      {T : Type 0} (f : Text → Text) (src dst : FilePath) (w : World T)
      → w.fs src ≡ dir
      → (map_err f (rename src dst) w).0 ≡ ok tt
      → SameBelow (map_err f (rename src dst) w).1.fs dst w.fs src
  moves_dir f src dst w h good x =
      map_err_kept f _ w (dst ++ x) ∙ elim (rename-Does_dir src dst w h) [
        | inl (_, now) ↦ ap (λ fs. fs (dst ++ x)) now ∙ moved_below w.fs src dst x
        | inr (e, bad, _) ↦ absurd (cc (bad, map_err-eq-ok f _ w tt good))
      ]

  append_nil : (p : FilePath) → p ++ [] ≡ p
  append_nil [] = refl
  append_nil (d ∷ p) = ap (λ r. d ∷ r) (append_nil p)

  -- The publication of a staged namespace over its sibling succeeds only if the staged one was
  -- complete, and the published namespace is then complete and fresh.
  pub publish_complete_namespace-IsFresh :
      {T : Type 0} (d : FilePath) (a b : Text) (w : World T)
      → a ≢ b
      → w.fs (d ++ (normal b ∷ [])) ≡ dir
      → let (answer, w') =
          publish_complete_namespace c q (d ++ (normal b ∷ [])) (d ++ (normal a ∷ [])) w in
        answer ≡ ok tt
        → IsFresh c q w.fs (d ++ (normal b ∷ [])) × IsFresh c q w'.fs (d ++ (normal a ∷ []))
  unfolding publish_complete_namespace
  publish_complete_namespace-IsFresh d a b w other staged h =
      let casc_dir = d ++ (normal a ∷ []) in
      let staging = d ++ (normal b ∷ []) in
      let (fresh, got, good1, same1) = >>=-next _ _ w tt h in
      let w1 = (resolution_cache_is_fresh c q staging w).1 in
      let kept = ((resolution_cache_is_fresh-IsReader c q staging).at w).fs in
      let (passed, same2) = checked fresh _ _ w1 good1 in
      let complete = resolution_cache_is_fresh-eq-true c q staging w (got ∙ ap ok passed) in
      let good2 = ap (λ r. r.0) (sym same2) ∙ good1 in
      let same3 = >>=-ok _ _ (exists_step casc_dir w1) in
      let (_, good4, same4) = >>-next _ _ w1 tt (ap (λ r. r.0) (sym same3) ∙ good2) in
      let w2 =
        ((if node_exists (w1.fs casc_dir)
            then map_err (λ e. txt "remove incomplete " ++ (display casc_dir ++ (txt ": " ++ e)))
                (remove_dir_all casc_dir)
            else pure tt)
          w1).1 in
      let beside : SameBelow w2.fs staging w.fs staging = λ x.
        made_room (node_exists (w1.fs casc_dir)) _ d a b w1 other x
        ∙ ap (λ fs. fs (staging ++ x)) kept in
      let still : w2.fs staging ≡ dir =
        ap w2.fs (sym (append_nil staging)) ∙ beside [] ∙ ap w.fs (append_nil staging) ∙ staged in
      let moves = moves_dir _ staging casc_dir w2 still good4 in
      (
        complete,
        moved-IsFresh _ w.fs casc_dir staging
            (λ x.
              ap (λ r. r.1.fs (casc_dir ++ x)) (same1 ∙ same2 ∙ same3 ∙ same4) ∙ moves x ∙ beside x)
            complete,
      )
