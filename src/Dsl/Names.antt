-- ===== src/Dsl/Names.antt =====
-- internal/dsl/validator.go: the patterns of identifiers and names, which the source writes as regular
-- expressions, and decimal numerals in the names of fields.
use Prim.Native.Char.{code}
use Prim.Native.String.{String, ◌++◌ as append}
use evalfrog.Prelude.{
  ℕ, zero, suc, ◌/◌, ◌%◌, Bool, false, ◌&&◌, ◌||◌, List, [], ◌∷◌, if◌then◌else◌, leb, nat_eq, ltb,
  length, all,
}

abbrev pub codes : String → List ℕ
codes String.[] = []
codes (String.◌∷◌ c s) = code c ∷ codes s

abbrev in_range : ℕ → ℕ → ℕ → Bool
in_range low high c = leb low c && leb c high

-- [0-9a-f]
unfoldable pub is_hex : ℕ → Bool
is_hex c = in_range b'0' b'9' c || in_range b'a' b'f' c

-- [A-Za-z]
unfoldable pub is_letter : ℕ → Bool
is_letter c = in_range b'A' b'Z' c || in_range b'a' b'z' c

-- [A-Za-z0-9_]
unfoldable pub is_word : ℕ → Bool
unfolding is_letter
is_word c = is_letter c || in_range b'0' b'9' c || nat_eq c b'_'

-- x, the given letter, _, and 24 hexadecimal digits to the end
unfoldable pub matches_id : ℕ → List ℕ → Bool
unfolding is_hex all
matches_id letter (x ∷ kind ∷ underscore ∷ rest) =
    nat_eq x b'x'
    && nat_eq kind letter
    && nat_eq underscore b'_'
    && nat_eq (length rest) 24
    && all is_hex rest
matches_id letter _ = false

-- ^xn_[0-9a-f]{24}$
unfoldable pub node_id_pattern : String → Bool
unfolding matches_id
node_id_pattern id = matches_id b'n' (codes id)

-- ^xe_[0-9a-f]{24}$
unfoldable pub edge_id_pattern : String → Bool
unfolding matches_id
edge_id_pattern id = matches_id b'e' (codes id)

unfoldable pub matches_port : List ℕ → Bool
unfolding is_letter is_word all
matches_port [] = false
matches_port (first ∷ rest) = is_letter first && leb (length rest) 63 && all is_word rest

-- ^[A-Za-z][A-Za-z0-9_]{0,63}$, also the pattern of routes
unfoldable pub port_pattern : String → Bool
unfolding matches_port
port_pattern name = matches_port (codes name)

unfoldable pub digit_text : ℕ → String
digit_text zero = "0"
digit_text (suc zero) = "1"
digit_text (suc (suc zero)) = "2"
digit_text (suc (suc (suc zero))) = "3"
digit_text (suc (suc (suc (suc zero)))) = "4"
digit_text (suc (suc (suc (suc (suc zero))))) = "5"
digit_text (suc (suc (suc (suc (suc (suc zero)))))) = "6"
digit_text (suc (suc (suc (suc (suc (suc (suc zero))))))) = "7"
digit_text (suc (suc (suc (suc (suc (suc (suc (suc zero)))))))) = "8"
digit_text _ = "9"

-- %d of a number that has fewer digits than the fuel
unfoldable pub decimal_of : ℕ → ℕ → String
unfolding digit_text
decimal_of zero n = ""
decimal_of (suc fuel) n =
    let higher = decimal_of fuel (n / 10) in
    if ltb n 10 then digit_text n else append higher (digit_text (n % 10))

-- %d; twenty digits are enough for the index of a slice
unfoldable pub decimal : ℕ → String
unfolding decimal_of
decimal n = decimal_of 20 n
