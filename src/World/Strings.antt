-- ===== src/World/Strings.antt =====
-- std::fs::read_to_string: the bytes of a file, which are text.
use asset_resolver.Base.{Text, txt, FilePath, if◌then◌else◌}
use asset_resolver.Base.{◌≡◌, ap, ◌∙◌, Bool, true, false}
use asset_resolver.World.Io.{World, Io, ok, ◌>>=◌, pure, throw, read, io_steps}
use asset_resolver.World.Inversion.{>>=-next, pure-eq-ok}
use asset_resolver.World.Laws.{
  IsReader, bind-IsReader, read-IsReader, pure-IsReader, throw-IsReader, if-IsReader,
}
use asset_resolver.ListfileCache.Lines.{is_utf8}

unfoldable pub read_to_string : {T : Type 0} → FilePath → Io T Text
read_to_string p = do
  content ← read p
  if is_utf8 content then pure content else throw (txt "stream did not contain valid UTF-8")

pub read_to_string-IsReader : {T : Type 0} (p : FilePath) → IsReader (read_to_string {T = T} p)
unfolding read_to_string
read_to_string-IsReader p =
    bind-IsReader (read-IsReader p)
      (λ content. if-IsReader (is_utf8 content) (pure-IsReader content) (throw-IsReader _))

checked :
    {T : Type 0} (valid : Bool) (e content text : Text) (w : World T)
    → ((if valid then pure content else throw e) w).0 ≡ ok text
    → content ≡ text
unfolding io_steps
checked true e content text w h = pure-eq-ok content text w h
checked false e content text w h = absurd (cc h)

pub read_to_string-eq-ok :
    {T : Type 0} (p : FilePath) (w : World T) (text : Text)
    → (read_to_string p w).0 ≡ ok text
    → (read p w).0 ≡ ok text
unfolding read_to_string
read_to_string-eq-ok p w text h =
    let (content, found, last, _) = >>=-next (read p) _ w text h in
    found
    ∙ ap ok
        (checked (is_utf8 content) (txt "stream did not contain valid UTF-8") content text _ last)
