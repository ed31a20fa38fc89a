-- ===== src/Repository/SeatNumber.antt =====
-- formatSeatNumber of internal/repository/seat_repository.go, and the decimal print behind it.
pub mod Distinct
use ticket_master.Prelude.{ℕ, zero, suc, ◌+◌, ◌-◌, ◌/◌, ◌%◌, ◌==◌, ltb, if◌then◌else◌}
use Prim.Native.Char.{Char}
use Prim.Native.String.{String, [], ◌∷◌}

abbrev pub digit : ℕ → Char
digit d =
    if d == 0
    then "0"
    else if d == 1
    then "1"
    else if d == 2
    then "2"
    else if d == 3
    then "3"
    else if d == 4
    then "4"
    else if d == 5
    then "5"
    else if d == 6
    then "6"
    else if d == 7
    then "7"
    else if d == 8
    then "8"
    else "9"

-- The decimal print of n before a text; the first argument is fuel.
unfoldable pub print_fuel : ℕ → ℕ → String → String
print_fuel zero n out = digit n ∷ out
print_fuel (suc k) n out =
    let rest = print_fuel k (n / 10) (digit (n % 10) ∷ out) in
    if ltb n 10 then digit n ∷ out else rest

-- %d; each round divides the number by ten.
abbrev pub print : ℕ → String → String
print n out = print_fuel n n out

-- formatSeatNumber: fmt.Sprintf("R%d-S%d", row, seat)
unfoldable pub format_seat_number : ℕ → String
format_seat_number num =
    let row = (num - 1) / 10 + 1 in
    let seat = (num - 1) % 10 + 1 in "R" ∷ print row ("-" ∷ "S" ∷ print seat [])
