-- ===== src/Ui/Calls.antt =====
-- user/src/ui.c: the calls of ncurses that the drawing code makes, and `print_mac`.
use wifi_sniffer.Prelude.{
  ℕ, zero, suc, ◌+◌, String, Option, none, some, List, [], ◌∷◌, ◌==◌, ℤ, same_bytes, if◌then◌else◌,
  Outcome, ok, fault, ssid_overread, ◌>>=◌,
}
use wifi_sniffer.Ctx.{Ap, Ctx}

-- `A_BOLD` and `COLOR_PAIR(n)`.
pub data Attribute : Type 0 where
  bold : Attribute
  color_pair : ℕ → Attribute

pub data Draw : Type 0 where
  move : ℕ → ℕ → Draw
  text : String → Draw
  number : ℤ → Draw
  address : List ℕ → Draw
  name : List ℕ → Draw
  attr_on attr_off : Attribute → Draw
  border : Draw

-- `%s` of an array: the bytes before the first zero. Without one, `%s` reads on behind the array.
unfoldable pub c_string : List ℕ → Outcome (List ℕ)
c_string [] = fault ssid_overread
c_string (c ∷ cs) = let rest = c_string cs in if c == 0 then ok [] else rest >>= λ s. ok (c ∷ s)

-- The loop of `print_mac` over the first `n` entries.
unfoldable pub find_pair : List Ap → ℕ → List ℕ → Option ℕ
find_pair [] n mac = none
find_pair (a ∷ aps) zero mac = none
find_pair (a ∷ aps) (suc n) mac =
    if same_bytes a.mac mac then some (a.col_pair + 1) else find_pair aps n mac

unfoldable pub print_mac : Ctx → List ℕ → List Draw
print_mac ctx mac = elim (find_pair ctx.aps ctx.aps_count mac) [
  | none ↦ address mac ∷ []
  | some pair ↦ attr_on (color_pair pair) ∷ address mac ∷ attr_off (color_pair pair) ∷ []
]
