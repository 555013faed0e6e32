-- ===== src/Prelude/Utf8.antt =====
-- `std::str::from_utf8`: which bytes are text. A string of the program is the list of its bytes.
use Prim.Native.Nat.{ℕ, zero, suc, ◌<◌}
use Prim.Native.Char.{code}
use Prim.Native.String.{String}
use mathlib.Core.Path.{◌≡◌, refl, ap, ◌∙◌}
use mathlib.Core.Bool.{Bool, true, false, ◌&&◌}
use mathlib.Core.List.{List, [], ◌∷◌}
use native.Mathlib.Omega.{arith}
use moviehouse.Prelude.Tests.{leb, ltb, ◌==◌, if◌then◌else◌}

-- What may follow: so many continuation bytes, the next of them within bounds.
pub record Expect : Type 0 where
  pub valid : Bool
  pub more : ℕ
  pub low : ℕ
  pub high : ℕ

abbrev start : Expect
start = record { valid = true; more = 0; low = 0x80; high = 0xbf }

after_lead : ℕ → Expect
after_lead b =
    if ltb b 0x80
    then start
    else if ltb b 0xc2
    then record start { valid = false }
    else if ltb b 0xe0
    then record start { more = 1 }
    else if b == 0xe0
    then record start { more = 2; low = 0xa0 }
    else if b == 0xed
    then record start { more = 2; high = 0x9f }
    else if ltb b 0xf0
    then record start { more = 2 }
    else if b == 0xf0
    then record start { more = 3; low = 0x90 }
    else if ltb b 0xf4
    then record start { more = 3 }
    else if b == 0xf4
    then record start { more = 3; high = 0x8f }
    else record start { valid = false }

after_byte : Expect → ℕ → ℕ → Expect
unfolding after_lead
after_byte e zero b = after_lead b
after_byte e (suc k) b = record start { valid = e.valid && (leb e.low b && leb b e.high); more = k }

utf8_from : Expect → List ℕ → Bool
unfolding after_byte
utf8_from e [] = e.valid && (e.more == 0)
utf8_from e (b ∷ bs) = e.valid && utf8_from (after_byte e e.more b) bs

unfoldable pub is_utf8 : List ℕ → Bool
unfolding utf8_from
is_utf8 = utf8_from start

abbrev pub AllAscii : List ℕ → Type 0
AllAscii [] = Unit
AllAscii (b ∷ bs) = (b < 0x80) × AllAscii bs

pub is_utf8_ascii : (bs : List ℕ) → AllAscii bs → is_utf8 bs ≡ true
unfolding is_utf8
is_utf8_ascii [] h = refl
is_utf8_ascii (b ∷ bs) h =
    let lead : after_lead b ≡ start = (unfold after_lead in ground arith) in
    ap (λ e. utf8_from e bs) lead ∙ is_utf8_ascii bs h.1

-- The bytes of an ASCII literal of the source.
abbrev pub ascii : String → List ℕ
ascii String.[] = []
ascii (String.◌∷◌ c s) = code c ∷ ascii s

accents : is_utf8 (0x63 ∷ 0xc3 ∷ 0xa9 ∷ []) ≡ true
unfolding is_utf8
accents = refl

surrogate : is_utf8 (0xed ∷ 0xa0 ∷ 0x80 ∷ []) ≡ false
unfolding is_utf8
surrogate = refl
