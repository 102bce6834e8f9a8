-- ===== src/Listfile/Calls.antt =====
-- src/listfile.rs: any sequence of lookups in one listfile, with changes of the files in between.
use asset_resolver.Base.{ℕ, Text, List, [], ◌∷◌, ◌≡◌}
use asset_resolver.World.Fs.{FileSystem}
use asset_resolver.World.Io.{World}
use asset_resolver.ListfileCache.Sql.{Database}
use asset_resolver.Listfile.Memory.{CachedListfile, insert_both, empty}
use asset_resolver.Listfile.MemoryLaws.{IsConsistent, insert_both-IsConsistent, empty-IsConsistent}
use asset_resolver.Listfile.Keeps.{lookup_fdid-Holds, lookup_path-Holds}
use asset_resolver.Listfile.{Listfile, lookup_fdid, lookup_path}

pub data Call : Type 0 where
  fdid_of_path : Text → Call
  path_of_fdid : ℕ → Call
  -- Other processes leave these files.
  elsewhere : FileSystem → Call

module _ (d : Database) where
  after_call : Call → World (Listfile d) → World (Listfile d)
  after_call (path_of_fdid fdid) w = (lookup_fdid d fdid w).1
  after_call (fdid_of_path p) w = (lookup_path d p w).1
  after_call (elsewhere fs) w = record w { fs = fs }

  -- The world behind some lookups, and what other processes do to the files in between.
  unfoldable pub after_calls : List Call → World (Listfile d) → World (Listfile d)
  unfolding after_call
  after_calls [] w = w
  after_calls (call ∷ calls) w = after_calls calls (after_call call w)

  module _ (Q : CachedListfile → Type 0)
      (insert_both-keeps : (fdid : ℕ) (p : Text) (m : CachedListfile)
        → Q m
        → Q (insert_both fdid p m)) where
    after_call-keeps :
        (call : Call) (w : World (Listfile d))
        → Q w.statics.memory
        → Q (after_call call w).statics.memory
    unfolding after_call
    after_call-keeps (path_of_fdid fdid) w h = (lookup_fdid-Holds d Q insert_both-keeps fdid).at w h
    after_call-keeps (elsewhere fs) w h = h
    after_call-keeps (fdid_of_path p) w h = (lookup_path-Holds d Q insert_both-keeps p).at w h

    -- Lookups keep what every insertion keeps.
    pub after_calls-keeps :
        (calls : List Call) (w : World (Listfile d))
        → Q w.statics.memory
        → Q (after_calls calls w).statics.memory
    unfolding after_calls
    after_calls-keeps [] w h = h
    after_calls-keeps (call ∷ calls) w h =
        after_calls-keeps calls (after_call call w) (after_call-keeps call w h)

  -- From empty maps on, however many lookups there are, however each of them ends and whatever becomes
  -- of the files in between, every FDID and every path stands once, every path in lower case, the path
  -- of a known FDID is known, and the FDID of a known path is known.
  pub after_calls-IsConsistent :
      (calls : List Call) (w : World (Listfile d))
      → w.statics.memory ≡ empty
      → IsConsistent (after_calls calls w).statics.memory
  after_calls-IsConsistent calls w h =
      after_calls-keeps IsConsistent insert_both-IsConsistent calls w (rw h empty-IsConsistent)
