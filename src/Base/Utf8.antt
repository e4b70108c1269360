-- ===== src/Base/Utf8.antt =====
-- `String::from_utf8` of the standard library: which byte strings are well-formed UTF-8. A Rust
-- `String` is the list of its bytes, and what is known of it is that it passes this test.
use rust_mq.Base.Tests.{leb, ltb, if◌then◌else◌}
use Prim.Native.Nat.{ℕ}
use mathlib.Core.Path.{◌≡◌}
use mathlib.Core.Bool.{Bool, true, false, ◌&&◌}
use mathlib.Core.Option.{Option, none, some}
use mathlib.Core.List.{List, [], ◌∷◌}

-- The ranges in which the bytes that are still wanted must lie.
abbrev Pending : Type 0
Pending = List (ℕ × ℕ)

between : ℕ → ℕ → ℕ → Bool
between lo hi b = leb lo b && leb b hi

-- What a first byte asks for: nothing (ASCII), or one to three continuation bytes. Overlong forms,
-- surrogates and code points above 10FFFF are ruled out by the first range.
lead : ℕ → Option Pending
unfolding between
lead b =
    if ltb b 0x80
    then some []
    else if between 0xc2 0xdf b
    then some ((0x80, 0xbf) ∷ [])
    else if between 0xe0 0xe0 b
    then some ((0xa0, 0xbf) ∷ (0x80, 0xbf) ∷ [])
    else if between 0xed 0xed b
    then some ((0x80, 0x9f) ∷ (0x80, 0xbf) ∷ [])
    else if between 0xe1 0xef b
    then some ((0x80, 0xbf) ∷ (0x80, 0xbf) ∷ [])
    else if between 0xf0 0xf0 b
    then some ((0x90, 0xbf) ∷ (0x80, 0xbf) ∷ (0x80, 0xbf) ∷ [])
    else if between 0xf1 0xf3 b
    then some ((0x80, 0xbf) ∷ (0x80, 0xbf) ∷ (0x80, 0xbf) ∷ [])
    else if between 0xf4 0xf4 b
    then some ((0x80, 0x8f) ∷ (0x80, 0xbf) ∷ (0x80, 0xbf) ∷ [])
    else none

next_byte : Pending → ℕ → Option Pending
unfolding lead between
next_byte [] b = lead b
next_byte ((lo, hi) ∷ more) b = if between lo hi b then some more else none

scan : Pending → List ℕ → Bool
scan [] [] = true
scan (r ∷ rs) [] = false
scan rs (b ∷ bs) = elim (next_byte rs b) [ none ↦ false | some next ↦ scan next bs ]

unfoldable pub is_utf8 : List ℕ → Bool
unfolding scan next_byte
is_utf8 s = scan [] s

abbrev pub IsText : List ℕ → Type 0
IsText s = is_utf8 s ≡ true
