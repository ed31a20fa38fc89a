-- ===== src/Repository/SeatNumber/Distinct.antt =====
-- Different seats of an event have different numbers: a seat's number can be read back.
use ticket_master.Prelude.{
  ℕ, zero, suc, ◌+◌, ◌-◌, ◌*◌, ◌/◌, ◌%◌, ◌≤◌, ◌<◌, ◌≡◌, refl, ap, sym, ◌∙◌, Bool, true, false, ◌&&◌,
  leb, if◌then◌else◌, arith,
}
use Prim.Native.Char.{Char, code}
use Prim.Native.String.{String, [], ◌∷◌}
use ticket_master.Repository.SeatNumber.{digit, print_fuel, print, format_seat_number}

abbrev is_digit : ℕ → Bool
is_digit c = leb 48 c && leb c 57

-- The number at the front of a text, and what follows it.
abbrev read : ℕ → String → ℕ × String
read n [] = (n, [])
read n (c ∷ s) =
    let rest = read (n * 10 + (code c - 48)) s in if is_digit (code c) then rest else (n, c ∷ s)

code-if : (b : Bool) (c d : Char) → code (if b then c else d) ≡ (if b then code c else code d)
code-if true c d = refl
code-if false c d = refl

code-digit : (d : ℕ) → d < 10 → code (digit d) ≡ 48 + d
code-digit d h = simp (code-if) (ground arith)

is_digit-code : (d : ℕ) → d < 10 → is_digit (48 + d) ≡ true
is_digit-code d h = ground arith

minus_48 : (d : ℕ) → 48 + d - 48 ≡ d
minus_48 d = omega arith

-- A digit of the print is read as that digit.
read-digit : (d n : ℕ) (out : String) → d < 10 → read n (digit d ∷ out) ≡ read (n * 10 + d) out
read-digit d n out h = rw (code-digit d h, is_digit-code d h, minus_48 d) refl

read-print_fuel : (k n : ℕ) (out : String) → n ≤ k → read 0 (print_fuel k n out) ≡ read n out
unfolding print_fuel
read-print_fuel zero n out h = ground (arith, read-digit n 0 out)
read-print_fuel (suc k) n out h = ground (
  arith,
  read-digit n 0 out,
  read-digit (n % 10) (n / 10) out,
  read-print_fuel k (n / 10) (digit (n % 10) ∷ out),
)

read-print : (n : ℕ) (out : String) → read 0 (print n out) ≡ read n out
read-print n out = read-print_fuel n n out (omega arith)

abbrev tail : String → String
tail [] = []
tail (c ∷ s) = s

-- Which seat of the event has a number.
abbrev index : String → ℕ
index s = let (row, rest) = read 0 (tail s) in (row - 1) * 10 + (read 0 (tail (tail rest))).0

index-format_seat_number : (num : ℕ) → 1 ≤ num → index (format_seat_number num) ≡ num
unfolding format_seat_number
index-format_seat_number num h =
    rw
      (
        read-print ((num - 1) / 10 + 1) ("-" ∷ "S" ∷ print ((num - 1) % 10 + 1) []),
        read-print ((num - 1) % 10 + 1) [],
      )
      (omega arith)

-- Two seats of an event, counted from 1, that get the same number are the same seat.
pub format_seat_number-injective :
    (i j : ℕ) → 1 ≤ i → 1 ≤ j → format_seat_number i ≡ format_seat_number j → i ≡ j
format_seat_number-injective i j h k e =
    sym (index-format_seat_number i h) ∙ ap index e ∙ index-format_seat_number j k
