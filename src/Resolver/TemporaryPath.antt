-- ===== src/Resolver/TemporaryPath.antt =====
-- src/casc_resolver.rs, write_to_path: the temporary file is a sibling of the destination with another name.
use asset_resolver.Base.{
  ℕ, ◌+◌, ◌<◌, ◌≡◌, ◌≢◌, refl, ap, ◌∙◌, arith, Text, txt, FilePath, normal, parent, file_name,
  decimal, some, [], ◌∷◌, ◌++◌, All-append, IsSlashFree, decimal-IsSlashFree, length, length-append,
  path-IsName, join-IsPlain, last_equal,
}
use asset_resolver.Resolver.Extract.{temporary_path}

pub temporary_name : Text → ℕ → ℕ → Text
temporary_name name process_id serial =
    txt "."
    ++ (name
        ++ (txt "." ++ (decimal process_id ++ (txt "." ++ (decimal serial ++ txt ".partial")))))

temporary_name-IsSlashFree :
    (name : Text) (process_id serial : ℕ)
    → IsSlashFree name
    → IsSlashFree (temporary_name name process_id serial)
unfolding temporary_name txt
temporary_name-IsSlashFree name process_id serial h = (
  refl,
  All-append _ name _ h (
    refl,
    All-append _ (decimal process_id) _ (decimal-IsSlashFree process_id) (
      refl,
      All-append _ (decimal serial) _ (decimal-IsSlashFree serial)
          (refl, (refl, (refl, (refl, (refl, (refl, (refl, (refl, tt)))))))),
    ),
  ),
)

pub length-temporary_name :
    (name : Text) (process_id serial : ℕ)
    → length name + 2 < length (temporary_name name process_id serial)
unfolding temporary_name txt
length-temporary_name name process_id serial = omega (
  arith,
  length-append name
      (txt "." ++ (decimal process_id ++ (txt "." ++ (decimal serial ++ txt ".partial")))),
  length-append (decimal process_id) (txt "." ++ (decimal serial ++ txt ".partial")),
  length-append (decimal serial) (txt ".partial"),
)

pub temporary_path_lem :
    (dir : FilePath) (name : Text) (process_id serial : ℕ)
    → IsSlashFree name
    → temporary_path dir name process_id serial
      ≡ dir ++ (normal (temporary_name name process_id serial) ∷ [])
unfolding temporary_path temporary_name
temporary_path_lem dir name process_id serial h =
    rw
      (path-IsName (temporary_name name process_id serial) (record {
        no_slash = temporary_name-IsSlashFree name process_id serial h;
        long = omega (arith, length-temporary_name name process_id serial);
      }))
      (join-IsPlain dir (normal (temporary_name name process_id serial) ∷ []) (refl, tt))

pub temporary_path-fresh :
    (dir : FilePath) (name : Text) (process_id serial : ℕ)
    → IsSlashFree name
    → (dir ++ (normal name ∷ [])) ≢ temporary_path dir name process_id serial
temporary_path-fresh dir name process_id serial h same = omega (
  arith,
  length-temporary_name name process_id serial,
  ap length (last_equal dir name _ (same ∙ temporary_path_lem dir name process_id serial h)),
)

pub parent_lem : (dir : FilePath) (name : Text) → parent (dir ++ (normal name ∷ [])) ≡ some dir
unfolding parent
parent_lem [] name = refl
parent_lem (c ∷ []) name = cc
parent_lem (c ∷ d ∷ dir) name = rw (parent_lem (d ∷ dir) name) refl

pub file_name_lem :
    (dir : FilePath) (name : Text) → file_name (dir ++ (normal name ∷ [])) ≡ some name
unfolding file_name
file_name_lem [] name = refl
file_name_lem (c ∷ []) name = cc
file_name_lem (c ∷ d ∷ dir) name = file_name_lem (d ∷ dir) name
