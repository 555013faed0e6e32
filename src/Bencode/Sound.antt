-- ===== src/Bencode/Sound.antt =====
-- src/bencode/decode.rs: what every run of the decoder keeps, whatever the input. A run that returns
-- has moved forward inside its input and is back at its depth; one that fails does so by an error of
-- the decoder, not by a panic, and within the fuel.
pub mod Steps
pub mod Values
use moviehouse.Prelude.{
  ℕ, ◌+◌, ◌≤◌, ◌<◌, ◌≡◌, ◌≢◌, refl, ◌∙◌, arith, ap, List, Option, none, some, length, get_elem?,
  Outcome, ok, err, ◌>>=◌, Bool, true, false, if◌then◌else◌,
}
use moviehouse.Bencode.Decode.{Decoder, DecodeError, Step, index_out_of_bounds}

pub record Moved (k : ℕ) (d d' : Decoder) : Type 0 where
  pub same_input : d'.input ≡ d.input
  pub same_depth : d'.depth ≡ d.depth
  pub forward : d.pos + k ≤ d'.pos
  pub inside : d'.pos ≤ length d.input

-- The outcomes of a step that moves at least `k` places.
pub data Runs (k : ℕ) (d : Decoder) {A : Type 0} (P : A → Type 0) : Step A → Type 0 where
  moved : {a : A} {d' : Decoder} → Moved k d d' → P a → Runs k d P (ok (a, d'))
  stopped : {e : DecodeError} → e ≢ index_out_of_bounds → Runs k d P (err e)

-- The outcomes of a computation that leaves the decoder alone.
pub data Yields {A : Type 0} (P : A → Type 0) : Outcome DecodeError A → Type 0 where
  value : {a : A} → P a → Yields P (ok a)
  failed : {e : DecodeError} → e ≢ index_out_of_bounds → Yields P (err e)

pub Moved-trans :
    {k j : ℕ} {d d' d'' : Decoder} → Moved k d d' → Moved j d' d'' → Moved (k + j) d d''
Moved-trans m n = record {
  same_input = n.same_input ∙ m.same_input;
  same_depth = n.same_depth ∙ m.same_depth;
  forward = omega (arith, m.forward, n.forward);
  inside = omega (arith, n.inside, ap length m.same_input);
}

module _ {A B : Type 0} {P : A → Type 0} {Q : B → Type 0} {k : ℕ} {d : Decoder} where
  pub Runs-bind :
      {m : Step A} (f : A × Decoder → Step B) {j : ℕ} {start : Decoder}
      → Runs j start P m
      → ((a : A) (d' : Decoder) → Moved j start d' → P a → Runs k d Q (f (a, d')))
      → Runs k d Q (m >>= f)
  Runs-bind f (moved {a} {d'} h p) c = c a d' h p
  Runs-bind f (stopped e) c = stopped e

  pub Yields-bind :
      {m : Outcome DecodeError A} (f : A → Step B)
      → Yields P m
      → ((a : A) → P a → Runs k d Q (f a))
      → Runs k d Q (m >>= f)
  Yields-bind f (value {a} p) c = c a p
  Yields-bind f (failed e) c = stopped e

module _ {A : Type 0} {P : A → Type 0} where
  -- A run from a later decoder is one from the first.
  pub Runs-after :
      {k j n : ℕ} {d d' : Decoder} {m : Step A}
      → Moved k d d'
      → n ≤ k + j
      → Runs j d' P m
      → Runs n d P m
  Runs-after h le (moved {a} {d'} h' p) =
      let t = Moved-trans h h' in
      moved
        (record {
          same_input = t.same_input;
          same_depth = t.same_depth;
          forward = omega (arith, t.forward);
          inside = t.inside;
        })
        p
  Runs-after h le (stopped e) = stopped e

  pub Runs-map :
      {k : ℕ} {d : Decoder} {Q : A → Type 0} {m : Step A}
      → Runs k d P m
      → ((a : A) → P a → Q a)
      → Runs k d Q m
  Runs-map (moved {a} h p) f = moved h (f a p)
  Runs-map (stopped e) f = stopped e

  pub Runs-if :
      {k : ℕ} {d : Decoder} (b : Bool) {m n : Step A}
      → (b ≡ true → Runs k d P m)
      → (b ≡ false → Runs k d P n)
      → Runs k d P (if b then m else n)
  Runs-if true hm hn = hm refl
  Runs-if false hm hn = hn refl
