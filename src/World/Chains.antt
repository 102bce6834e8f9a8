-- ===== src/World/Chains.antt =====
-- A chain of steps, one step at a time.
use asset_resolver.Base.{◌≡◌, refl, ap, Text, FilePath, Option, none, some}
use asset_resolver.RuntimeMode.{Process, Run}
use asset_resolver.World.Fs.{node_exists, node_is_file}
use asset_resolver.World.Io.{
  World, Io, ok, err, panicked, ◌>>=◌, ◌>>◌, run, map_err, gets, pure, throw, lift, exists, is_file,
  attempt, io_steps,
}
use asset_resolver.Base

module _ {T A : Type 0} where
  -- A step that answered with a value hands it on.
  pub >>=-ok :
      {B : Type 0} (m : Io T A) (f : A → Io T B) {w w' : World T} {a : A}
      → m w ≡ (ok a, w')
      → (m >>= f) w ≡ f a w'
  unfolding io_steps
  >>=-ok m f {w = w} h = ap (λ r. ◌>>=◌ (λ _. r) f w) h

  -- A step that answered with an error ends the chain.
  pub >>=-err :
      {B : Type 0} (m : Io T A) (f : A → Io T B) {w w' : World T} {e : Text}
      → m w ≡ (err e, w')
      → (m >>= f) w ≡ (err e, w')
  unfolding io_steps
  >>=-err m f {w = w} h = ap (λ r. ◌>>=◌ (λ _. r) f w) h

  -- A step that panicked ends the chain.
  pub >>=-panicked :
      {B : Type 0} (m : Io T A) (f : A → Io T B) {w w' : World T}
      → m w ≡ (panicked, w')
      → (m >>= f) w ≡ (panicked, w')
  unfolding io_steps
  >>=-panicked m f {w = w} h = ap (λ r. ◌>>=◌ (λ _. r) f w) h

  pub run-some :
      (m : Run A) (w : World T) {a : A} {p : Process}
      → m w.process ≡ (some a, p)
      → run m w ≡ (ok a, record w { process = p })
  unfolding io_steps
  run-some m w h = ap (λ r. run (λ _. r) w) h

  pub attempt-ok :
      (m : Io T A) {w w' : World T} {a : A} → m w ≡ (ok a, w') → attempt m w ≡ (ok (Base.ok a), w')
  unfolding io_steps
  attempt-ok m {w = w} h = ap (λ r. attempt (λ _. r) w) h

  pub attempt-err :
      (m : Io T A) {w w' : World T} {e : Text}
      → m w ≡ (err e, w')
      → attempt m w ≡ (ok (Base.err e), w')
  unfolding io_steps
  attempt-err m {w = w} h = ap (λ r. attempt (λ _. r) w) h

  pub attempt-panicked :
      (m : Io T A) {w w' : World T} → m w ≡ (panicked, w') → attempt m w ≡ (panicked, w')
  unfolding io_steps
  attempt-panicked m {w = w} h = ap (λ r. attempt (λ _. r) w) h

  pub map_err-ok :
      (f : Text → Text) (m : Io T A) {w w' : World T} {a : A}
      → m w ≡ (ok a, w')
      → map_err f m w ≡ (ok a, w')
  unfolding io_steps
  map_err-ok f m {w = w} h = ap (λ r. map_err f (λ _. r) w) h

  pub map_err-err :
      (f : Text → Text) (m : Io T A) {w w' : World T} {e : Text}
      → m w ≡ (err e, w')
      → map_err f m w ≡ (err (f e), w')
  unfolding io_steps
  map_err-err f m {w = w} h = ap (λ r. map_err f (λ _. r) w) h

  pub gets_step : (f : World T → A) (w : World T) → gets f w ≡ (ok (f w), w)
  unfolding io_steps
  gets_step f w = refl

  pub pure_step : (a : A) (w : World T) → pure a w ≡ (ok a, w)
  unfolding io_steps
  pure_step a w = refl

  pub throw_step : (e : Text) (w : World T) → throw {A = A} e w ≡ (err e, w)
  unfolding io_steps
  throw_step e w = refl

  pub lift_ok_step : (a : A) (w : World T) → lift (Base.ok a) w ≡ (ok a, w)
  unfolding io_steps
  lift_ok_step a w = refl

  pub lift_err_step : (e : Text) (w : World T) → lift {A = A} (Base.err e) w ≡ (err e, w)
  unfolding io_steps
  lift_err_step e w = refl

module _ {T : Type 0} where
  pub >>-bind :
      {B : Type 0} (m : Io T (Unit {0})) (k : Io T B) (w : World T) → (m >> k) w ≡ (m >>= λ _. k) w
  unfolding ◌>>◌
  >>-bind m k w = refl

  pub exists_step : (p : FilePath) (w : World T) → exists p w ≡ (ok (node_exists (w.fs p)), w)
  unfolding io_steps
  exists_step p w = refl

  pub is_file_step : (p : FilePath) (w : World T) → is_file p w ≡ (ok (node_is_file (w.fs p)), w)
  unfolding io_steps
  is_file_step p w = refl
