-- ===== src/Monitor/Checks.antt =====
-- src/edgesentinel/metrics/checks.py: what a Linux machine tells about itself. A text is the list of
-- its code points. Ratios are counted in a unit of which `one` make 1.0 and are rounded down to it;
-- temperatures are thousandths of a degree.
pub mod Usage
pub mod Meminfo
use Prim.Native.Char.{code}
use edge_sentinel.Prelude.{
  Bool, List, Option, String, [], false, if◌then◌else◌, leb, min, none, reverse, some, suc, true,
  zero, ℕ, ◌&&◌, ◌*◌, ◌+◌, ◌-◌, ◌/◌, ◌==◌, ◌||◌, ◌∷◌,
}
use edge_sentinel.Core.Errors.{Error, os_error, value_error}
use edge_sentinel.Core.Effects.{Action, err, gets, ok, pure, raise, ◌>>=◌, ◌>>◌}
use edge_sentinel.Prelude.Int.{negsuc, pos, ℤ}
use edge_sentinel.Monitor.Metrics.{HardwareStatus}

-- What the operating system provides: `os.getloadavg()[0]`, in the unit, where the platform has it,
-- `os.cpu_count`, and the reading of a file.
pub record Machine (W : Type 0) : Type 0 where
  pub one : ℕ
  pub getloadavg : Option (Action W ℕ)
  pub cpu_count : W → Option ℕ
  pub readlines : String → Action W (List (List ℕ))
  pub read : String → Action W (List ℕ)

-- `os.cpu_count() or 1`.
abbrev count_or_one : Option ℕ → ℕ
count_or_one none = 1
count_or_one (some n) = if n == 0 then 1 else n

unfoldable cpu_load_ratio : {W : Type 0} → Machine W → Action W ℕ
cpu_load_ratio machine = elim machine.getloadavg [
  | none ↦ pure 0
  | some getloadavg ↦ (do
    load ← getloadavg
    cpus ← gets machine.cpu_count
    pure (load / count_or_one cpus))
]

abbrev pub is_digit : ℕ → Bool
is_digit c = leb b'0' c && leb c b'9'

-- `line.partition(":")`: what stands before the first colon, and after it.
abbrev pub partition : List ℕ → List ℕ × List ℕ
partition [] = ([], [])
partition (c ∷ cs) =
    let (key, rest) = partition cs in if c == b':' then ([], cs) else (c ∷ key, rest)

-- The digits of a text. Of the characters that `str.isdigit` takes, the kernel writes ASCII's alone.
abbrev pub digits_in : List ℕ → List ℕ
digits_in [] = []
digits_in (c ∷ cs) = if is_digit c then c ∷ digits_in cs else digits_in cs

-- `int` of digits, from the value of those before.
abbrev pub int_from : ℕ → List ℕ → ℕ
int_from n [] = n
int_from n (c ∷ cs) = int_from (10 * n + (c - b'0')) cs

-- `str.strip`, of ASCII's white space.
abbrev is_space : ℕ → Bool
is_space c = (leb 9 c && leb c 13) || (leb 28 c && leb c 32)

abbrev lstrip : List ℕ → List ℕ
lstrip [] = []
lstrip (c ∷ cs) = if is_space c then lstrip cs else c ∷ cs

abbrev pub strip : List ℕ → List ℕ
strip cs = reverse (lstrip (reverse (lstrip cs)))

abbrev pub same_text : List ℕ → List ℕ → Bool
same_text [] [] = true
same_text (a ∷ cs) (b ∷ ds) = a == b && same_text cs ds
same_text _ _ = false

abbrev pub Values : Type 0
Values = List (List ℕ × ℕ)

-- `values.get` and `values[key] = value`.
abbrev pub get : List ℕ → Values → Option ℕ
get key [] = none
get key ((k, v) ∷ rest) = if same_text k key then some v else get key rest

abbrev pub set : List ℕ → ℕ → Values → Values
set key value [] = (key, value) ∷ []
set key value ((k, v) ∷ rest) =
    if same_text k key then (k, value) ∷ rest else (k, v) ∷ set key value rest

abbrev pub enter : List ℕ → List ℕ → Values → Values
enter key [] values = values
enter key (d ∷ ds) values = set (strip key) (int_from 0 (d ∷ ds)) values

-- One line of /proc/meminfo.
unfoldable pub read_line : List ℕ → Values → Values
read_line line values = let (key, rest) = partition line in enter key (digits_in rest) values

pub read_lines : List (List ℕ) → Values → Values
unfolding read_line
read_lines [] values = values
read_lines (line ∷ rest) values = read_lines rest (read_line line values)

abbrev pub codes : String → List ℕ
codes String.[] = []
codes (String.◌∷◌ c s) = code c ∷ codes s

abbrev or_else : Option ℕ → Option ℕ → Option ℕ
or_else none b = b
or_else (some a) b = some a

-- `max(0.0, min(1.0, 1 - available / total))`: the difference stops at zero.
abbrev pub used : ℕ → ℕ → ℕ → ℕ
used one total available = min one ((total - available) * one / total)

-- What follows the loop over the lines.
unfoldable pub ratio_of : ℕ → Values → ℕ
ratio_of one values = elim (get (codes "MemTotal") values) [
  | none ↦ 0
  | some total ↦
      if total == 0
      then 0
      else elim (or_else (get (codes "MemAvailable") values) (get (codes "MemFree") values)) [
        | none ↦ 0
        | some available ↦ used one total available
      ]
]

-- `int` of a text: white space about it, a sign, digits, and nothing else. The underscores that it takes
-- between digits are left out.
abbrev only_digits : List ℕ → Bool
only_digits [] = true
only_digits (c ∷ cs) = is_digit c && only_digits cs

abbrev parse_digits : List ℕ → Option ℕ
parse_digits [] = none
parse_digits (c ∷ cs) = if only_digits (c ∷ cs) then some (int_from 0 (c ∷ cs)) else none

abbrev negate : ℕ → ℤ
negate zero = pos 0
negate (suc n) = negsuc n

abbrev parse_signed : List ℕ → Option ℤ
parse_signed [] = none
parse_signed (c ∷ cs) =
    if c == b'-'
    then elim (parse_digits cs) [ none ↦ none | some n ↦ some (negate n) ]
    else if c == b'+'
    then elim (parse_digits cs) [ none ↦ none | some n ↦ some (pos n) ]
    else elim (parse_digits (c ∷ cs)) [ none ↦ none | some n ↦ some (pos n) ]

-- `except OSError` and `except (OSError, ValueError)`.
abbrev pub is_os_error : Error → Bool
is_os_error os_error = true
is_os_error _ = false

abbrev is_unreadable : Error → Bool
is_unreadable os_error = true
is_unreadable value_error = true
is_unreadable _ = false

abbrev pub except : {W A : Type 0} → (Error → Bool) → Action W A → A → Action W A
except caught m default w =
    let (r, w') = m w in
    elim r [ ok a ↦ (ok a, w') | err e ↦ if caught e then (ok default, w') else (err e, w') ]

module _ {W : Type 0} (machine : Machine W) where
  unfoldable pub memory_used_ratio : String → Action W ℕ
  unfolding read_lines ratio_of
  memory_used_ratio path = do
    lines ← except is_os_error (do ls ← machine.readlines path; pure (some ls)) none
    pure (elim lines [ none ↦ 0 | some ls ↦ ratio_of machine.one (read_lines ls []) ])

  unfoldable read_temperature : String → Action W (Option ℤ)
  read_temperature path =
      except is_unreadable
        (do
          t ← machine.read path
          elim (parse_signed (strip t)) [ none ↦ raise value_error | some m ↦ pure (some m) ])
        none

  unfoldable read_hardware_status : String → Option String → Action W HardwareStatus
  unfolding cpu_load_ratio memory_used_ratio read_temperature
  read_hardware_status meminfo_path thermal_zone_path = do
    cpu ← cpu_load_ratio machine
    memory ← memory_used_ratio meminfo_path
    temperature ← elim thermal_zone_path [ none ↦ pure none | some path ↦ read_temperature path ]
    pure (record {
      cpu_load_ratio = cpu;
      memory_used_ratio = memory;
      temperature_celsius = temperature;
    })
