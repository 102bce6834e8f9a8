-- ===== src/Build/Active.antt =====
-- src/casc_resolver.rs: the active build is what the build information on the disk says.
use asset_resolver.Base.{ℕ, ◌≡◌, refl, sym, ap, ◌∙◌, Text, txt, FilePath, path, join, List, Result}
use asset_resolver.Base
use asset_resolver.Paths.{ResolverPaths}
use asset_resolver.World.Fs.{FileSystem, file}
use asset_resolver.World.Io.{World, ok}
use asset_resolver.World.Strings.{read_to_string-eq-ok}
use asset_resolver.World.Inversion.{>>=-next, map_err-eq-ok, lift-eq-ok, read-eq-ok, pure-eq-ok}
use asset_resolver.Casc.{Cascette, BuildInfoRow}
use asset_resolver.Build.{
  ActiveBuild, select_build_key, read_build_info, read_product_build, read_requested_build,
  requested_product,
}

abbrev info_file : FilePath → FilePath
info_file root = join root (path (txt ".build.info"))

module _ (c : Cascette) where
  -- What a build information file says of a product
  record Says (fs : FileSystem) (root : FilePath) (product : Text) (active : ActiveBuild)
      : Type 0 where
    content : Text
    changed : ℕ
    rows : List BuildInfoRow
    is_there : fs (info_file root) ≡ file content changed
    parsed : Cascette.parse_build_info c content ≡ Base.ok rows
    selected : select_build_key (info_file root) product rows ≡ Base.ok active.build_key
    of_product : active.product ≡ product

  read_product_build-eq-ok :
      {T : Type 0} (root : FilePath) (product : Text) (w : World T) (active : ActiveBuild)
      → (read_product_build c root product w).0 ≡ ok active
      → Says w.fs root product active
  unfolding read_product_build read_build_info
  read_product_build-eq-ok root product w active h =
      let (rows, read, good1, _) = >>=-next _ _ w active h in
      let (content, bytes, parse, _) = >>=-next _ _ w rows read in
      let (t, there) =
        read-eq-ok (info_file root) w content
          (read_to_string-eq-ok (info_file root) w content (map_err-eq-ok _ _ w content bytes)) in
      let (key, selects, good2, _) = >>=-next _ _ _ active good1 in
      let (_, _, good3, _) = >>=-next _ _ _ active good2 in
      let (_, _, good4, _) = >>=-next _ _ _ active good3 in
      let (_, _, good5, _) = >>=-next _ _ _ active good4 in
      let (config, _, good6, _) = >>=-next _ _ _ active good5 in
      let is = pure-eq-ok _ active _ good6 in
      record {
        content = content;
        changed = t;
        rows = rows;
        is_there = there;
        parsed = lift-eq-ok _ _ rows (map_err-eq-ok _ _ _ rows parse);
        selected = lift-eq-ok _ _ key selects ∙ ap Base.ok (ap ActiveBuild.build_key is);
        of_product = ap ActiveBuild.product (sym is);
      }

  Says-unique :
      (fs : FileSystem) (root : FilePath) (product : Text) (a b : ActiveBuild)
      → Says fs root product a
      → Says fs root product b
      → (a.product ≡ b.product) × (a.build_key ≡ b.build_key)
  Says-unique fs root product a b h k =
      let content : h.content ≡ k.content = cc (h.is_there, k.is_there) in
      let rows : h.rows ≡ k.rows =
        cc (h.parsed, k.parsed, ap (Cascette.parse_build_info c) content) in
      (
        h.of_product ∙ sym k.of_product,
        cc (h.selected, k.selected, ap (select_build_key (info_file root) product) rows),
      )

  -- Two reads of the requested build that succeed on the same files and in the same environment give the
  -- same product and the same key.
  pub read_requested_build_unique :
      {T U : Type 0} (paths : ResolverPaths) (root : FilePath) (v : World T) (w : World U)
      (a b : ActiveBuild)
      → v.fs ≡ w.fs
      → v.env ≡ w.env
      → (read_requested_build c paths root v).0 ≡ ok a
      → (read_requested_build c paths root w).0 ≡ ok b
      → (a.product ≡ b.product) × (a.build_key ≡ b.build_key)
  unfolding read_requested_build
  read_requested_build_unique paths root v w a b files env first second =
      let product = requested_product c paths w.env in
      let one : Says v.fs root product a =
        rw (← ap (requested_product c paths) env)
          (read_product_build-eq-ok root (requested_product c paths v.env) v a first) in
      Says-unique w.fs root product a b (rw (← files) one)
        (read_product_build-eq-ok root product w b second)
