-- ===== src/Text.antt =====
-- What the program uses of `std::string` and of the conversions between text and numbers:
-- literals, `std::to_string`, `std::stoi`, `std::stoll` and `toupper` of the C locale.
pub mod Decimal
pub mod Numbers
pub mod Range
pub mod Storage
use Prim.Native.Char.{code}
use Prim.Native.String.{String}
use druta_db.Prelude.{
  ℕ, zero, suc, ◌+◌, ◌-◌, ◌*◌, ◌/◌, ◌%◌, ◌^◌, ◌≡◌, refl, Bool, true, false, ◌&&◌, ◌||◌, Option,
  none, some, List, [], ◌∷◌, ◌++◌, map, arith, ltb, leb, ◌==◌, if◌then◌else◌, snoc, Bytes, ℤ, pos,
  negsuc,
}

-- The bytes of an ASCII literal.
abbrev pub codes : String → Bytes
codes String.[] = []
codes (String.◌∷◌ c s) = code c ∷ codes s

abbrev pub cr : ℕ
cr = 13

abbrev pub lf : ℕ
lf = 10

-- "\r\n"
abbrev pub crlf : Bytes
crlf = cr ∷ lf ∷ []

-- `c = toupper((unsigned char)c)`
unfoldable pub to_upper_char : ℕ → ℕ
to_upper_char c = if leb b'a' c && leb c b'z' then c - 32 else c

unfoldable pub to_upper : Bytes → Bytes
unfolding to_upper_char
to_upper = map to_upper_char

-- `std::to_string` of an unsigned number. Each round drops one digit, so `suc n` rounds suffice.
unfoldable pub decimal : ℕ → ℕ → Bytes
decimal zero n = []
decimal (suc fuel) n =
    let rest = decimal fuel (n / 10) in
    if ltb n 10 then (b'0' + n) ∷ [] else snoc rest (b'0' + n % 10)

unfoldable pub to_string : ℕ → Bytes
unfolding decimal
to_string n = decimal (suc n) n

unfoldable pub int_to_string : ℤ → Bytes
unfolding to_string
int_to_string (pos n) = to_string n
int_to_string (negsuc n) = b'-' ∷ to_string (suc n)

unfoldable pub is_digit : ℕ → Bool
is_digit c = leb b'0' c && leb c b'9'

-- `isspace` of the C locale
unfoldable pub is_space : ℕ → Bool
is_space c = c == 32 || (leb 9 c && leb c 13)

unfoldable pub skip_space : Bytes → Bytes
unfolding is_space
skip_space [] = []
skip_space (c ∷ cs) = if is_space c then skip_space cs else c ∷ cs

-- The digits at the front, read after the number `acc`.
unfoldable pub read_digits : ℕ → Bytes → ℕ
unfolding is_digit
read_digits acc [] = acc
read_digits acc (c ∷ cs) =
    let rest = read_digits (acc * 10 + (c - b'0')) cs in if is_digit c then rest else acc

-- A number in range; `limit` is the first magnitude that does not fit.
unfoldable pub in_range : Bool → ℕ → ℕ → Option ℤ
in_range true limit zero = some (pos 0)
in_range true limit (suc n) = if ltb n limit then some (negsuc n) else none
in_range false limit n = if ltb n limit then some (pos n) else none

-- Without a digit the conversion throws `std::invalid_argument`, outside the range
-- `std::out_of_range`; what follows the digits is ignored.
unfoldable pub read_magnitude : ℕ → Bool → Bytes → Option ℤ
unfolding is_digit read_digits in_range
read_magnitude limit negative [] = none
read_magnitude limit negative (c ∷ cs) =
    if is_digit c then in_range negative limit (read_digits 0 (c ∷ cs)) else none

unfoldable pub read_signed : ℕ → Bytes → Option ℤ
unfolding read_magnitude
read_signed limit [] = none
read_signed limit (c ∷ cs) =
    if c == b'-'
    then read_magnitude limit true cs
    else if c == b'+'
    then read_magnitude limit false cs
    else read_magnitude limit false (c ∷ cs)

-- `std::stoi`; `none` is an exception.
unfoldable pub stoi : Bytes → Option ℤ
unfolding read_signed skip_space
stoi s = read_signed (2 ^ 31) (skip_space s)

-- `std::stoll`
unfoldable pub stoll : Bytes → Option ℤ
unfolding read_signed skip_space
stoll s = read_signed (2 ^ 63) (skip_space s)
