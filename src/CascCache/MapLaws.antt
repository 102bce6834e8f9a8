-- ===== src/CascCache/MapLaws.antt =====
-- Which row the resolution table has for a file.
use asset_resolver.Base.{
  ℕ, ◌≡◌, refl, sym, ap, ◌∙◌, arith, Text, Option, none, some, List, [], ◌∷◌, ◌++◌, if◌then◌else◌,
  ◌==◌, nat_eq, list_eq, nat_eqb_iff, Bool-cases, inl, inr,
}
use asset_resolver.Base.Assoc.{Assoc, lookup, insert, lookup-insert, NodupKeys, insert-NodupKeys}
use asset_resolver.Casc.{RootBlock, RootRecord, EncodingEntry}
use asset_resolver.CascCache.Maps.{
  add_records, add_blocks, collect_fdid_to_content_keys, add_entries, add_pages,
  collect_content_to_encoding_keys, resolution_rows,
}

-- The last record of the file among the blocks of the client's locale.
unfoldable pub last_record : ℕ → List RootRecord → Option Text → Option Text
last_record fdid [] found = found
last_record fdid (r ∷ rs) found =
    last_record fdid rs (if r.file_data_id == fdid then some r.content_key else found)

unfoldable pub client_records : List RootBlock → List RootRecord
client_records [] = []
client_records (b ∷ bs) =
    let rest = client_records bs in if b.has_client_locale then b.records ++ rest else rest

lookup-add_records :
    (fdid : ℕ) (rs : List RootRecord) (m : Assoc ℕ Text)
    → lookup fdid (add_records rs m) ≡ last_record fdid rs (lookup fdid m)
unfolding add_records last_record
lookup-add_records fdid [] m = refl
lookup-add_records fdid (r ∷ rs) m =
    lookup-add_records fdid rs (insert r.file_data_id r.content_key m)
    ∙ ap (last_record fdid rs) (lookup-insert fdid r.file_data_id r.content_key m)

last_record-append :
    (fdid : ℕ) (rs ss : List RootRecord) (found : Option Text)
    → last_record fdid (rs ++ ss) found ≡ last_record fdid ss (last_record fdid rs found)
unfolding last_record
last_record-append fdid [] ss found = refl
last_record-append fdid (r ∷ rs) ss found = last_record-append fdid rs ss _

lookup-add_blocks :
    (fdid : ℕ) (bs : List RootBlock) (m : Assoc ℕ Text)
    → lookup fdid (add_blocks bs m) ≡ last_record fdid (client_records bs) (lookup fdid m)
unfolding add_blocks client_records last_record
lookup-add_blocks fdid [] m = refl
lookup-add_blocks fdid (b ∷ bs) m = elim (Bool-cases b.has_client_locale) [
  | inl client ↦ rw client (
      lookup-add_blocks fdid bs (add_records b.records m)
      ∙ ap (last_record fdid (client_records bs)) (lookup-add_records fdid b.records m)
      ∙ sym (last_record-append fdid b.records (client_records bs) (lookup fdid m)))
  | inr other ↦ rw other (lookup-add_blocks fdid bs m)
]

add_records-NodupKeys :
    (rs : List RootRecord) (m : Assoc ℕ Text) → NodupKeys m → NodupKeys (add_records rs m)
unfolding add_records
add_records-NodupKeys [] m h = h
add_records-NodupKeys (r ∷ rs) m h =
    add_records-NodupKeys rs _ (insert-NodupKeys r.file_data_id r.content_key m h)

add_blocks-NodupKeys :
    (bs : List RootBlock) (m : Assoc ℕ Text) → NodupKeys m → NodupKeys (add_blocks bs m)
unfolding add_blocks
add_blocks-NodupKeys [] m h = h
add_blocks-NodupKeys (b ∷ bs) m h = elim (Bool-cases b.has_client_locale) [
  | inl client ↦ rw client (add_blocks-NodupKeys bs _ (add_records-NodupKeys b.records m h))
  | inr other ↦ rw other (add_blocks-NodupKeys bs m h)
]

-- The first encoding key of the last entry of the content that has one.
unfoldable pub last_encoding : Text → List EncodingEntry → Option Text → Option Text
last_encoding ck [] found = found
last_encoding ck (e ∷ es) found =
    last_encoding ck es
      (elim e.encoding_keys [ [] ↦ found | k ∷ _ ↦ if e.content_key == ck then some k else found ])

unfoldable pub all_entries : List (List EncodingEntry) → List EncodingEntry
all_entries [] = []
all_entries (p ∷ ps) = p ++ all_entries ps

last_encoding-append :
    (ck : Text) (es fs : List EncodingEntry) (found : Option Text)
    → last_encoding ck (es ++ fs) found ≡ last_encoding ck fs (last_encoding ck es found)
unfolding last_encoding
last_encoding-append ck [] fs found = refl
last_encoding-append ck (e ∷ es) fs found = last_encoding-append ck es fs _

add_entry :
    (ck : Text) (keys : List Text) (content : Text) (m : Assoc Text Text)
    → (let m' : Assoc Text Text = elim keys [ [] ↦ m | k ∷ _ ↦ insert content k m ] in lookup ck m')
      ≡ (elim keys [ [] ↦ lookup ck m | k ∷ _ ↦ if content == ck then some k else lookup ck m ])
add_entry ck [] content m = refl
add_entry ck (k ∷ ks) content m = lookup-insert ck content k m

lookup-add_entries :
    (ck : Text) (es : List EncodingEntry) (m : Assoc Text Text)
    → lookup ck (add_entries es m) ≡ last_encoding ck es (lookup ck m)
unfolding add_entries last_encoding
lookup-add_entries ck [] m = refl
lookup-add_entries ck (e ∷ es) m =
    lookup-add_entries ck es _
    ∙ ap (last_encoding ck es) (add_entry ck e.encoding_keys e.content_key m)

lookup-add_pages :
    (ck : Text) (ps : List (List EncodingEntry)) (m : Assoc Text Text)
    → lookup ck (add_pages ps m) ≡ last_encoding ck (all_entries ps) (lookup ck m)
unfolding add_pages all_entries last_encoding
lookup-add_pages ck [] m = refl
lookup-add_pages ck (p ∷ ps) m =
    lookup-add_pages ck ps (add_entries p m)
    ∙ ap (last_encoding ck (all_entries ps)) (lookup-add_entries ck p m)
    ∙ sym (last_encoding-append ck p (all_entries ps) (lookup ck m))

-- The row of a file among rows.
unfoldable pub row_of : ℕ → List (ℕ × Text × Text) → Option (Text × Text)
row_of fdid [] = none
row_of fdid ((f, ck, ek) ∷ rows) = if f == fdid then some (ck, ek) else row_of fdid rows

-- The pair of keys of a content key.
abbrev pub keyed : Option Text → (Text → Option Text) → Option (Text × Text)
keyed none f = none
keyed (some ck) f = elim (f ck) [ none ↦ none | some ek ↦ some (ck, ek) ]

keyed_cong :
    (o : Option Text) (f g : Text → Option Text)
    → ((ck : Text) → f ck ≡ g ck)
    → keyed o f ≡ keyed o g
keyed_cong none f g h = refl
keyed_cong (some ck) f g h = rw (h ck, keyed) refl

row_of-resolution_rows :
    (fdid : ℕ) (m : Assoc ℕ Text) (k : Assoc Text Text)
    → NodupKeys m
    → row_of fdid (resolution_rows m k) ≡ keyed (lookup fdid m) (λ ck. lookup ck k)
unfolding row_of resolution_rows lookup
row_of-resolution_rows fdid [] k h = refl
row_of-resolution_rows fdid ((f, ck) ∷ m) k (fresh, h) =
    ground (arith, row_of-resolution_rows fdid m k h, nat_eqb_iff f fdid)

-- The table has for a file the content key of its last record in the client's locale, with the
-- first encoding key of the last entry of that content key that has one; a file that lacks either
-- has no row.
pub resolution_rows-lookup :
    (fdid : ℕ) (blocks : List RootBlock) (pages : List (List EncodingEntry))
    → row_of fdid (
        resolution_rows
          (collect_fdid_to_content_keys blocks)
          (collect_content_to_encoding_keys pages))
      ≡ keyed
          (last_record fdid (client_records blocks) none)
          (λ ck. last_encoding ck (all_entries pages) none)
unfolding collect_fdid_to_content_keys collect_content_to_encoding_keys lookup
resolution_rows-lookup fdid blocks pages =
    row_of-resolution_rows fdid (add_blocks blocks []) (add_pages pages [])
      (add_blocks-NodupKeys blocks [] tt)
    ∙ rw (lookup-add_blocks fdid blocks []) (keyed_cong _ _ _ (λ ck. lookup-add_pages ck pages []))
