-- ===== src/Base/Results.antt =====
-- Results of fallible code. `panic` is a call that aborts, as a failed `expect` does.
use mathlib.Core.Path.{◌≡◌, refl}
use mathlib.Core.Bool.{Bool, true, false}
use mathlib.Core.Option.{Option, none, some}

pub data Result (E A : Type 0) : Type 0 where
  ok : A → Result E A
  err : E → Result E A
  panic : Result E A

-- The `?` of Rust, and a call of which only the failure matters.
infixl 5 ◌>>=◌ ◌>>◌
abbrev pub ◌>>=◌ : {E A B : Type 0} → Result E A → (A → Result E B) → Result E B
panic >>= k = panic
err e >>= k = err e
ok x >>= k = k x

abbrev pub ◌>>◌ : {E B : Type 0} → Result E (Unit {0}) → Result E B → Result E B
first >> next = first >>= λ passed. next

-- `Option::ok_or`.
abbrev pub ok_or : {E A : Type 0} → Option A → E → Result E A
ok_or none e = err e
ok_or (some a) e = ok a

-- `Result::map_err`, which is also what `?` does through `From`.
abbrev pub map_err : {E F A : Type 0} → (E → F) → Result E A → Result F A
map_err f (ok a) = ok a
map_err f (err e) = err (f e)
map_err f panic = panic

-- What a chain that succeeds has gone through.
module _ {E A B : Type 0} where
  pub >>=-eq-ok :
      (r : Result E A) (k : A → Result E B) {y : B}
      → (r >>= k) ≡ ok y
      → (x : A) × (r ≡ ok x) × (k x ≡ ok y)
  >>=-eq-ok panic k done = cc
  >>=-eq-ok (err e) k done = cc
  >>=-eq-ok (ok x) k done = (x, refl, done)

pub map_err-eq-ok :
    {E F A : Type 0} (f : E → F) (m : Result E A) {a : A} → map_err f m ≡ ok a → m ≡ ok a
map_err-eq-ok f (ok b) h = cc
map_err-eq-ok f (err e) h = cc
map_err-eq-ok f panic h = cc

-- `if c { return Err(e) }`.
abbrev pub refuse_if : {E : Type 0} → Bool → E → Result E (Unit {0})
refuse_if true e = err e
refuse_if false e = ok tt

pub ok_or-eq-ok : {E A : Type 0} (o : Option A) (e : E) {a : A} → ok_or o e ≡ ok a → o ≡ some a
ok_or-eq-ok none e h = cc
ok_or-eq-ok (some b) e h = cc

pub refuse_if-eq-ok :
    {E : Type 0} (c : Bool) (e : E) {t : Unit {0}} → refuse_if c e ≡ ok t → c ≡ false
refuse_if-eq-ok true e h = cc
refuse_if-eq-ok false e h = refl
