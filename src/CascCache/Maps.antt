-- ===== src/CascCache/Maps.antt =====
-- src/casc_cache.rs: the maps that the resolution table is made from.
use asset_resolver.Base.{ℕ, Text, none, some, List, [], ◌∷◌, if◌then◌else◌, nat_eq, list_eq}
use asset_resolver.Base.Assoc.{Assoc, lookup, insert}
use asset_resolver.Casc.{RootBlock, RootRecord, EncodingEntry}

unfoldable pub add_records : List RootRecord → Assoc ℕ Text → Assoc ℕ Text
add_records [] m = m
add_records (r ∷ rs) m = add_records rs (insert r.file_data_id r.content_key m)

unfoldable pub add_blocks : List RootBlock → Assoc ℕ Text → Assoc ℕ Text
add_blocks [] m = m
add_blocks (b ∷ bs) m = add_blocks bs (if b.has_client_locale then add_records b.records m else m)

unfoldable pub collect_fdid_to_content_keys : List RootBlock → Assoc ℕ Text
collect_fdid_to_content_keys blocks = add_blocks blocks []

unfoldable pub add_entries : List EncodingEntry → Assoc Text Text → Assoc Text Text
add_entries [] m = m
add_entries (e ∷ es) m =
    add_entries es (elim e.encoding_keys [ [] ↦ m | k ∷ _ ↦ insert e.content_key k m ])

unfoldable pub add_pages : List (List EncodingEntry) → Assoc Text Text → Assoc Text Text
add_pages [] m = m
add_pages (p ∷ ps) m = add_pages ps (add_entries p m)

unfoldable pub collect_content_to_encoding_keys : List (List EncodingEntry) → Assoc Text Text
collect_content_to_encoding_keys pages = add_pages pages []

-- The rows that `insert_resolution_rows` inserts: a record without an encoding key is passed over.
unfoldable pub resolution_rows : Assoc ℕ Text → Assoc Text Text → List (ℕ × Text × Text)
resolution_rows [] ck_to_ek = []
resolution_rows ((fdid, ck) ∷ m) ck_to_ek =
    let rest = resolution_rows m ck_to_ek in
    elim (lookup ck ck_to_ek) [ none ↦ rest | some ek ↦ (fdid, ck, ek) ∷ rest ]
