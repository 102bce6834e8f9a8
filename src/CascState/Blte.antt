-- ===== src/CascState/Blte.antt =====
-- src/casc_resolver.rs: the container behind the header that a local archive puts before it.
use asset_resolver.Base.{
  ℕ, zero, suc, ◌+◌, Text, txt, ◌&&◌, [], ◌∷◌, ◌++◌, Result, map_err, leb, length, starts_with,
  if◌then◌else◌,
}
use asset_resolver.Casc.{Cascette}

-- `&raw[n..]`
abbrev pub drop : ℕ → Text → Text
drop zero t = t
drop (suc n) [] = []
drop (suc n) (_ ∷ t) = drop n t

-- LOCAL_CASC_HEADER_SIZE
abbrev pub local_casc_header_size : ℕ
local_casc_header_size = 30

unfoldable pub blte_bytes : Text → Text
blte_bytes raw =
    if leb (local_casc_header_size + 4) (length raw)
      && starts_with (drop local_casc_header_size raw) (txt "BLTE")
    then drop local_casc_header_size raw
    else raw

unfoldable pub parse_local_blte : (c : Cascette) → Text → Result (Cascette.Blte c)
parse_local_blte c raw =
    map_err (λ e. txt "parse BLTE container: " ++ e) (Cascette.parse_blte c (blte_bytes raw))
